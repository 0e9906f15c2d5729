-- ===== src/VisitJournal/Laws.antt =====
-- The one fetch of an immediate visit, and the report of an accepted one.
use ln_church_agent.Common.{ℕ, arith, ◌≡◌, ◌≢◌, List, some, true}
use ln_church_agent.VisitJournal.Types.{Visit, Claim, Report}
use ln_church_agent.VisitJournal.Methods.{
  begin_endpoint, begin_fetch, freeze, replace, with_report, VisitCall, mark_dispatch, run_visits,
  mark_result,
}
use ln_church_agent.Common.Outcome.{done}
use ln_church_agent.VisitJournal.Keeps.{run_visits-keeps, IsKept}

-- the fetch of this endpoint has begun
pub record IsBegun (endpoint : ℕ) (v : Visit) : Type 0 where
  pub begun : v.endpoint_id ≡ some endpoint

IsBegun-IsKept : (e : ℕ) (c : Claim) → IsKept (IsBegun e) c
unfolding begin_endpoint freeze with_report replace mark_dispatch mark_result
IsBegun-IsKept e c = record {
  on_begin = λ endpoint at v h. ground (arith, h.begun);
  on_freeze = λ r v h. ground (arith, h.begun);
  on_replace = λ r v h. ground (arith, h.begun);
  on_dispatch = λ v h. ground (arith, h.begun);
  on_result = λ result v h. ground (arith, h.begun);
}

begin-refused :
    (c : Claim) (endpoint at e : ℕ) (v : Visit)
    → IsBegun e v
    → (begin_fetch c endpoint at v).0 ≢ done true
unfolding begin_fetch begin_endpoint
begin-refused c endpoint at e v h = ground (arith, h.begun)

-- a start that is permitted is recorded
begin-IsBegun :
    (c : Claim) (endpoint at : ℕ) (v : Visit)
    → (begin_fetch c endpoint at v).0 ≡ done true
    → IsBegun endpoint (begin_fetch c endpoint at v).1
unfolding begin_fetch begin_endpoint
begin-IsBegun c endpoint at v e = record { begun = ground (arith, e) }

-- A fetch starts at most once: after a `begin_fetch` that permitted a start, its endpoint is the
-- recorded one, and no later `begin_fetch`, of whatever endpoint, permits a start, whatever calls
-- lie between.
pub run_visits_once :
    (c : Claim) (calls : List VisitCall) (v : Visit) (e at endpoint later : ℕ)
    → (begin_fetch c e at v).0 ≡ done true
    → let v' = run_visits c calls (begin_fetch c e at v).1 in
      IsBegun e v' × ((begin_fetch c endpoint later v').0 ≢ done true)
run_visits_once c calls v e at endpoint later h =
    let b = (begin_fetch c e at v).1 in
    let h' =
      run_visits-keeps (IsBegun e) c (IsBegun-IsKept e c) calls b (begin-IsBegun c e at v h) in
    (h', begin-refused c endpoint later e (run_visits c calls b) h')

-- the completion of this report was accepted
pub record IsAccepted (r : Report) (v : Visit) : Type 0 where
  pub is_accepted : v.accepted ≡ true
  pub has_report : v.report ≡ some r

IsAccepted-IsKept : (r : Report) (c : Claim) → IsKept (IsAccepted r) c
unfolding begin_endpoint freeze with_report replace mark_dispatch mark_result
IsAccepted-IsKept r c = record {
  on_begin = λ endpoint at v h. ground (arith, h.is_accepted, h.has_report);
  on_freeze = λ q v h. ground (arith, h.is_accepted, h.has_report);
  on_replace = λ q v h. ground (arith, h.is_accepted, h.has_report);
  on_dispatch = λ v h. ground (arith, h.is_accepted, h.has_report);
  on_result = λ result v h. ground (arith, h.is_accepted, h.has_report);
}

-- An accepted report stays accepted and is never replaced, whatever calls follow.
pub run_visits-IsAccepted :
    (c : Claim) (calls : List VisitCall) (v : Visit) (r : Report)
    → IsAccepted r v
    → IsAccepted r (run_visits c calls v)
run_visits-IsAccepted c calls v r h =
    run_visits-keeps (IsAccepted r) c (IsAccepted-IsKept r c) calls v h
