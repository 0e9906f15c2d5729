-- ===== src/Grants/Tests.antt =====
-- The diagnosis of a small grant.
use ln_church_agent.Common.{refl, true, some, none, ◌≡◌, ◌∷◌, ◌↔◌, []}
use ln_church_agent.Grants.Diagnose.{
  Subject, Grant, GrantCall, diagnose_grant_token, diagnose_grant, Token, unusable, FailureClass,
}
use ln_church_agent.Grants.Usable.{IsGranted, diagnose_grant_token_usable_iff}

abbrev agent : Subject
agent = record { text = 11; lower = 12; is_hex = true }

abbrev grant : Grant
grant = record {
  jti = some 1;
  sub = some agent;
  aud = none ∷ some 21 ∷ [];
  exp = some 500;
  nbf = some 100;
  routes = 31 ∷ [];
  methods = 41 ∷ 42 ∷ [];
  asset = some 1;
}

abbrev post : GrantCall
post = record {
  agent_id = some agent;
  base_url = some (record { whole = 20; origin = 21; netloc = 22 });
  route = 31;
  method = 42;
  current_time = 500;
}

-- one second later it has expired
too_late :
    diagnose_grant_token (Token.decoded grant) (record post { current_time = 501 })
    ≡ unusable FailureClass.expired
unfolding diagnose_grant_token diagnose_grant
too_late = refl

diagnose_grant_token_usable_iff_example :
    ((diagnose_grant_token (Token.decoded grant) post).usable ≡ true) ↔ IsGranted grant post
diagnose_grant_token_usable_iff_example = diagnose_grant_token_usable_iff grant post
