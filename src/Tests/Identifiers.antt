-- ===== src/Tests/Identifiers.antt =====
-- The search for an advisory id.
use advisoryhub.Prelude.{◌≡◌, refl, true, [], ◌∷◌}
use advisoryhub.Identifiers.{in_alphabet, generate_unique_id, Found, generate_unique_id-Found}
use advisoryhub.Tests.Data.{draft}

two : in_alphabet 50 ≡ true
unfolding in_alphabet
two = refl

generate_unique_id-Found_example :
    Found (λ n. 50) (λ n. two) (draft ∷ []) 8 0 (generate_unique_id (λ n. 50) (draft ∷ []) 8 0)
generate_unique_id-Found_example = generate_unique_id-Found (λ n. 50) (λ n. two) (draft ∷ []) 8 0
