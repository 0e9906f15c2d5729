-- ===== src/Execution/QuietSteps.antt =====
-- The steps of an execution that send nothing, those that navigate, and those that send a request.
use ln_church_agent.Execution.Types.{Settings, Agent, Stop, Location, Verb, Run, Reply, Receipt}
use Prim.Native.Nat.{ℕ, suc}
use ln_church_agent.Common.Outcome.{◌>>=◌, bind-keeps, raise_if, gets, pure, modify, ◌>>◌}
use ln_church_agent.Common.{Bool, ◌≡◌, arith, ◌≤◌, ◌+◌, refl, Option, true, ◌∷◌, false, some, none}
use ln_church_agent.Common.Lists.{length}
use ln_church_agent.Execution.Checks.{
  check_local_policy-same, resolve_navigation-IsNavigated, resolve_navigation-hops,
  resolve_navigation-done,
}
use ln_church_agent.Budget.PhaseSteps.{init-phase, assert-phase}
use ln_church_agent.Budget.States.{assert_payment_state_allows_402}
use ln_church_agent.Execution.Navigate.{
  initialize_navigation_state, check_local_policy, resolve_navigation,
}
use ln_church_agent.Execution.Attempt.{ledger, write_receipt}
use ln_church_agent.Execution.Rounds.{apply_server_receipt_state, send_request}
use ln_church_agent.Budget.Ledger.{init_context_state}
use ln_church_agent.Execution.Spending.{
  IsQuiet, Quiets, credit, Runs, IsRun, still-IsRun, quiet-IsRun, more-IsRun,
}

module _ (cfg : Settings) (fp : ℕ) where
  -- A step that leaves the session and the entry of the navigation states is quiet.
  still-IsQuiet :
      {w u : Agent}
      → u.sent ≡ w.sent
      → u.is_starved ≡ w.is_starved
      → u.attempts ≡ w.attempts
      → u.session ≡ w.session
      → u.navigation ≡ w.navigation
      → IsQuiet cfg fp w u
  still-IsQuiet a b c d e = record {
    same_sent = a;
    same_life = b;
    same_count = c;
    same_phase_now = ground (arith, d);
    more_hops = ground (arith, e);
  }

  pub guard-Quiets : (t : Bool) (e : Stop) → Quiets cfg fp (raise_if {E = Stop} t e)
  guard-Quiets true e = record { quiets = λ w. still-IsQuiet refl refl refl refl refl }
  guard-Quiets false e = record { quiets = λ w. still-IsQuiet refl refl refl refl refl }

  pub gets-Quiets : {A : Type 0} (f : Agent → A) → Quiets cfg fp (gets {E = Stop} f)
  gets-Quiets f = record { quiets = λ w. still-IsQuiet refl refl refl refl refl }

  pure-Quiets : {A : Type 0} (a : A) → Quiets cfg fp (pure {E = Stop} a)
  pure-Quiets a = record { quiets = λ w. still-IsQuiet refl refl refl refl refl }

  pub check_local_policy-Quiets : (t : Location) → Quiets cfg fp (check_local_policy cfg t)
  check_local_policy-Quiets t = record {
    quiets = λ w. rw (check_local_policy-same cfg t w) (still-IsQuiet refl refl refl refl refl);
  }

  pub initialize-Quiets : (url : ℕ) → Quiets cfg fp (initialize_navigation_state url)
  unfolding initialize_navigation_state
  initialize-Quiets url = record {
    quiets = λ w. record {
      same_sent = refl;
      same_life = refl;
      same_count = refl;
      same_phase_now = refl;
      more_hops = ground arith;
    };
  }

  pub init-Quiets :
      Quiets cfg fp (modify {E = Stop} (λ w. record w { session = init_context_state w.session }))
  init-Quiets = record {
    quiets = λ w. record {
      same_sent = refl;
      same_life = refl;
      same_count = refl;
      same_phase_now = init-phase fp w.session;
      more_hops = omega arith;
    };
  }

  pub assert-Quiets : Quiets cfg fp (ledger (assert_payment_state_allows_402 fp))
  assert-Quiets = record {
    quiets = λ w. record {
      same_sent = refl;
      same_life = refl;
      same_count = refl;
      same_phase_now = (assert-phase fp w.session).0;
      more_hops = omega arith;
    };
  }

  write_receipt-Quiets : (r : Option ℕ) (f : Receipt → Receipt) → Quiets cfg fp (write_receipt r f)
  unfolding write_receipt
  write_receipt-Quiets none f = record { quiets = λ w. still-IsQuiet refl refl refl refl refl }
  write_receipt-Quiets (some i) f = record { quiets = λ w. still-IsQuiet refl refl refl refl refl }

  pub receipt_state-Quiets :
      (r : Option ℕ) (v : Bool) → Quiets cfg fp (apply_server_receipt_state r v)
  unfolding apply_server_receipt_state
  receipt_state-Quiets r true = write_receipt-Quiets r _
  receipt_state-Quiets r false = pure-Quiets tt

  resolve-Quiets :
      (v : Verb) (r : Bool) (old new : Location)
      → Quiets cfg fp (resolve_navigation cfg v r old new)
  resolve-Quiets v r old new = record {
    quiets = λ w.
        let e = resolve_navigation-IsNavigated cfg v r old new w in
        let le = resolve_navigation-hops cfg v r old new w in
        record {
          same_sent = ground (arith, e);
          same_life = ground (arith, e);
          same_count = ground (arith, e);
          same_phase_now = ground (arith, e);
          more_hops = le;
        };
  }

  -- a navigation takes one from the credit
  pub navigate_then-Runs :
      {b : ℕ} (v : Verb) (r : Bool) (old new : Location) {m : Run}
      → Runs cfg fp b 1 m
      → Runs cfg fp (suc b) 0 (resolve_navigation cfg v r old new >> m)
  unfolding credit
  navigate_then-Runs {b} v r old new {m} h = record {
    runs = λ w l.
        let n : Run = resolve_navigation cfg v r old new in
        let q = (resolve-Quiets v r old new).quiets w in
        let c = 0 + credit cfg fp w in
        bind-keeps (IsRun cfg fp c w) n (λ _. m) w (still-IsRun cfg fp c q)
          (λ u e.
            let d = resolve_navigation-done cfg v r old new w u e in
            let le : suc (credit cfg fp (n w).1) ≤ credit cfg fp w =
              ground (arith, d, q.same_phase_now) in
            quiet-IsRun cfg fp c q
              (more-IsRun cfg fp (omega (arith, le)) (h.runs (n w).1 (omega (arith, l, le)))));
  }

  -- a request is one request more
  pub send_then-Runs :
      {b : ℕ} (replies : ℕ → Reply) (t : Location) {f : Reply → Run}
      → ((r : Reply) → Runs cfg fp b 0 (f r))
      → Runs cfg fp b 1 (send_request replies t >>= f)
  unfolding send_request credit
  send_then-Runs {b} replies t h = record {
    runs = λ w l.
        let u = record w { sent = t ∷ w.sent } in
        let r = (h (replies (length w.sent))).runs u l in
        record {
          requests = omega (arith, r.requests);
          alive = r.alive;
          idle = r.idle;
          at_most = r.at_most;
        };
  }
