-- ===== src/Framing/Tests.antt =====
-- Framings of some heads.
-- "7, 007"
use ln_church_agent.Common.{List, ◌≡◌, ℕ, ◌∷◌, [], some, false, refl}
use ln_church_agent.Framing.Fields.{
  visit_framing, HeaderName, length_parts, chunked, transfer_parts, FramingError,
}
use ln_church_agent.Framing.Accepted.{IsFramed, visit_framing-IsFramed}
use ln_church_agent.Common.Outcome.{done, raised}

abbrev repeated : List (HeaderName × List ℕ)
repeated = (HeaderName.content_length, 55 ∷ 44 ∷ 32 ∷ 48 ∷ 48 ∷ 55 ∷ []) ∷ []

equal_lengths : visit_framing repeated ≡ done (some 7, false)
unfolding visit_framing
equal_lengths = refl

-- a length and a coding
smuggled :
    visit_framing ((HeaderName.transfer_encoding, chunked) ∷ repeated)
    ≡ raised FramingError.framing_invalid
unfolding visit_framing
smuggled = refl

-- "2097153", one above the limit
above_limit :
    visit_framing ((HeaderName.content_length, 50 ∷ 48 ∷ 57 ∷ 55 ∷ 49 ∷ 53 ∷ 51 ∷ []) ∷ [])
    ≡ raised FramingError.response_too_large
unfolding visit_framing
above_limit = refl

visit_framing-IsFramed_example :
    IsFramed (length_parts repeated) (transfer_parts repeated) (visit_framing repeated)
visit_framing-IsFramed_example = visit_framing-IsFramed repeated
