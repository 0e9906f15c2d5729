-- ===== src/Grants/Usable.antt =====
-- When a grant token is usable.

use ln_church_agent.Common.{
  arith, ℕ, List, ◌≡◌, Option, some, true, ◌≤◌, ◌↔◌, false, inl, ap, is_none, inr, none, ◌∷◌, ◌⊎◌,
  Bool-cases, suc, opt_eq, refl, ◌==◌, [], ==_iff,
}
use ln_church_agent.Grants.Diagnose.{
  Grant, audience_matches, diagnose_grant, diagnose_grant_token, GrantCall, Token, BaseUrl,
  is_usable, is_missing, is_early, same_subject, grant_credit, Subject, is_expired, is_candidate,
}
use ln_church_agent.Common.Lists.{contains, get_elem?, any}
use Prim.Native.Nat.{zero}

-- The list holds the number somewhere.
abbrev pub Holds : ℕ → List ℕ → Type 0
Holds a xs = (i : ℕ) × (get_elem? xs i ≡ some a)

-- the grant is for the agent: the texts are the same, without regard to case where both are hex
abbrev pub IsSameSubject : Subject → Subject → Type 0
IsSameSubject s a =
    ((s.is_hex ≡ true) × (a.is_hex ≡ true) × (s.lower ≡ a.lower))
    ⊎ (((s.is_hex ≡ false) ⊎ (a.is_hex ≡ false)) × (s.text ≡ a.text))

-- an audience of the grant is the site, by its whole URL, its origin or its host
pub record IsAudience (auds : List (Option ℕ)) (base : BaseUrl) : Type 0 where
  pub index : ℕ
  pub audience : ℕ
  pub listed : get_elem? auds index ≡ some (some audience)
  pub names_site : (audience ≡ base.whole) ⊎ (audience ≡ base.origin) ⊎ (audience ≡ base.netloc)

-- the conditions of a usable grant, in words of the grant and the call alone
pub record IsGranted (g : Grant) (c : GrantCall) : Type 0 where
  pub exp : ℕ
  pub expires : g.exp ≡ some exp
  pub not_expired : c.current_time ≤ exp
  pub not_early : (g.nbf ≡ none) ⊎ ((nbf : ℕ) × (g.nbf ≡ some nbf) × (nbf ≤ c.current_time))
  pub jti : ℕ
  pub has_jti : g.jti ≡ some jti
  pub subject : Subject
  pub agent : Subject
  pub has_subject : g.sub ≡ some subject
  pub has_agent : c.agent_id ≡ some agent
  pub right_subject : IsSameSubject subject agent
  pub base : BaseUrl
  pub has_base : c.base_url ≡ some base
  pub right_audience : IsAudience g.aud base
  pub in_routes : Holds c.route g.routes
  pub in_methods : Holds c.method g.methods
  pub right_asset : g.asset ≡ some grant_credit

contains-Holds : (a : ℕ) (xs : List ℕ) → contains a xs ≡ true → Holds a xs
contains-Holds a [] h = ground (arith, h)
contains-Holds a (x ∷ xs) h = elim (Bool-cases (a == x)) [
  | inl e ↦ (0, ground (arith, ==_iff a x, e))
  | inr e ↦ let (i, g) = contains-Holds a xs (ground (arith, e, h)) in (suc i, g)
]

Holds-contains : (a : ℕ) (xs : List ℕ) (i : ℕ) → get_elem? xs i ≡ some a → contains a xs ≡ true
Holds-contains a [] i h = ground (arith, h)
Holds-contains a (x ∷ xs) zero h = ground (arith, h)
Holds-contains a (x ∷ xs) (suc i) h = ground (arith, Holds-contains a xs i h)

same_subject-IsSameSubject :
    (s a : Option Subject)
    → same_subject s a ≡ true
    → (x : Subject) × (y : Subject) × (s ≡ some x) × (a ≡ some y) × IsSameSubject x y
unfolding same_subject
same_subject-IsSameSubject none a h = ground (arith, h)
same_subject-IsSameSubject (some s) none h = ground (arith, h)
same_subject-IsSameSubject (some s) (some a) h = (s, a, refl, refl, ground (arith, h))

IsSameSubject-same_subject :
    (s a : Subject) → IsSameSubject s a → same_subject (some s) (some a) ≡ true
unfolding same_subject
IsSameSubject-same_subject s a h = ground (arith, h)

any-IsAudience :
    (base : BaseUrl) (auds : List (Option ℕ))
    → any (is_candidate base) auds ≡ true
    → IsAudience auds base
any-IsAudience base [] h = ground (arith, h)
any-IsAudience base (none ∷ rest) h =
    let r = any-IsAudience base rest h in
    record {
      index = suc r.index;
      audience = r.audience;
      listed = r.listed;
      names_site = r.names_site;
    }
any-IsAudience base (some a ∷ rest) h = elim (Bool-cases (is_candidate base (some a))) [
  | inl e ↦ record { index = 0; audience = a; listed = refl; names_site = ground (arith, e) }
  | inr e ↦
      let r = any-IsAudience base rest (ground (arith, e, h)) in
      record {
        index = suc r.index;
        audience = r.audience;
        listed = r.listed;
        names_site = r.names_site;
      }
]

IsAudience-any :
    (base : BaseUrl) (auds : List (Option ℕ)) (i a : ℕ)
    → get_elem? auds i ≡ some (some a)
    → (a ≡ base.whole) ⊎ (a ≡ base.origin) ⊎ (a ≡ base.netloc)
    → any (is_candidate base) auds ≡ true
IsAudience-any base [] i a h n = ground (arith, h)
IsAudience-any base (x ∷ rest) zero a h n = ground (arith, h, n)
IsAudience-any base (x ∷ rest) (suc i) a h n = ground (arith, IsAudience-any base rest i a h n)

audience_matches-IsAudience :
    (auds : List (Option ℕ)) (b : Option BaseUrl)
    → audience_matches auds b ≡ true
    → (base : BaseUrl) × (b ≡ some base) × IsAudience auds base
unfolding audience_matches
audience_matches-IsAudience auds none h = ground (arith, h)
audience_matches-IsAudience auds (some base) h = (base, refl, any-IsAudience base auds h)

IsAudience-audience_matches :
    (auds : List (Option ℕ)) (base : BaseUrl)
    → IsAudience auds base
    → audience_matches auds (some base) ≡ true
unfolding audience_matches
IsAudience-audience_matches auds base h =
    IsAudience-any base auds h.index h.audience h.listed h.names_site

present : {A : Type 0} (o : Option A) → is_none o ≡ false → (a : A) × (o ≡ some a)
present none h = ground (arith, h)
present (some a) h = (a, refl)

not_early_of :
    (now : ℕ) (o : Option ℕ)
    → is_early now o ≡ false
    → (o ≡ none) ⊎ ((n : ℕ) × (o ≡ some n) × (n ≤ now))
not_early_of now none h = inl refl
not_early_of now (some n) h = inr (n, refl, ground (arith, h))

-- the code's tests, each of which a usable grant passes
record IsPassed (g : Grant) (c : GrantCall) : Type 0 where
  expires : is_none g.exp ≡ false
  not_expired : is_expired c.current_time g.exp ≡ false
  not_early : is_early c.current_time g.nbf ≡ false
  has_jti : is_none g.jti ≡ false
  right_subject : same_subject g.sub c.agent_id ≡ true
  right_audience : audience_matches g.aud c.base_url ≡ true
  in_routes : contains c.route g.routes ≡ true
  in_methods : contains c.method g.methods ≡ true
  right_asset : opt_eq g.asset (some grant_credit) ≡ true

usable-IsPassed : (g : Grant) (c : GrantCall) → (diagnose_grant g c).usable ≡ true → IsPassed g c
unfolding diagnose_grant
usable-IsPassed g c h = record {
  expires = ground (arith, h);
  not_expired = ground (arith, h);
  not_early = ground (arith, h);
  has_jti = ground (arith, h);
  right_subject = ground (arith, h);
  right_audience = ground (arith, h);
  in_routes = ground (arith, h);
  in_methods = ground (arith, h);
  right_asset = ground (arith, h);
}

passed-IsGranted : (g : Grant) (c : GrantCall) → IsPassed g c → IsGranted g c
passed-IsGranted g c p =
    let (exp, e) = present g.exp p.expires in
    let (jti, j) = present g.jti p.has_jti in
    let (s, a, es, ea, same) = same_subject-IsSameSubject g.sub c.agent_id p.right_subject in
    let (base, eb, audience) = audience_matches-IsAudience g.aud c.base_url p.right_audience in
    record {
      exp = exp;
      expires = e;
      not_expired = ground (arith, e, p.not_expired);
      not_early = not_early_of c.current_time g.nbf p.not_early;
      jti = jti;
      has_jti = j;
      subject = s;
      agent = a;
      has_subject = es;
      has_agent = ea;
      right_subject = same;
      base = base;
      has_base = eb;
      right_audience = audience;
      in_routes = contains-Holds c.route g.routes p.in_routes;
      in_methods = contains-Holds c.method g.methods p.in_methods;
      right_asset = ground (arith, p.right_asset);
    }

audience-present :
    (auds : List (Option ℕ)) (b : Option BaseUrl)
    → audience_matches auds b ≡ true
    → is_missing auds ≡ false
unfolding audience_matches
audience-present auds b h = ground (arith, h)

granted-usable : (g : Grant) (c : GrantCall) → IsGranted g c → diagnose_grant g c ≡ is_usable
unfolding diagnose_grant
granted-usable g c h =
    let s : same_subject g.sub c.agent_id ≡ true =
      rw (h.has_subject, h.has_agent)
        (IsSameSubject-same_subject h.subject h.agent h.right_subject) in
    let a : audience_matches g.aud c.base_url ≡ true =
      rw (h.has_base) (IsAudience-audience_matches g.aud h.base h.right_audience) in
    let m = audience-present g.aud c.base_url a in
    let r = Holds-contains c.route g.routes h.in_routes.0 h.in_routes.1 in
    let v = Holds-contains c.method g.methods h.in_methods.0 h.in_methods.1 in
    ground (arith, h.expires, h.not_expired, h.not_early, h.has_jti, s, a, m, r, v, h.right_asset)

-- A decoded grant is usable exactly when it expires and has not expired, has begun, is identified,
-- is for this agent, this site, this route and this method, and is grant credit.
pub diagnose_grant_token_usable_iff :
    (g : Grant) (c : GrantCall)
    → ((diagnose_grant_token (Token.decoded g) c).usable ≡ true) ↔ IsGranted g c
unfolding diagnose_grant_token
diagnose_grant_token_usable_iff g c = (
  λ h. passed-IsGranted g c (usable-IsPassed g c h),
  λ h. ap (λ d. d.usable) (granted-usable g c h),
)
