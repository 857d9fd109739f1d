-- ===== src/Ghsa/Ecosystems.antt =====
-- The names of ecosystems on GitHub and in OSV: the table for reading an advisory
-- (ghsa/translator.py, `_ECOSYSTEM_MAP`) and the one for writing it (ghsa/services.py,
-- `_OSV_TO_GHSA_ECOSYSTEM`).
use advisoryhub.Prelude.{
  ℕ, ◌+◌, ◌≡◌, ◌∙◌, ap, refl, sym, Bool, true, false, ◌&&◌, leb, List, [], ◌∷◌, map, Text, codes,
  strip, text_eq, text_eq_sound, is_space, arith, if◌then◌else◌, Bool-cases, inl, inr,
}
use advisoryhub.Documents.Json.{string}
use advisoryhub.Documents.Lists.{every, is_in, find_text, or_default}
use advisoryhub.Documents.Ecosystems.{is_valid_ecosystem}
use advisoryhub.Ghsa.Packages.{ecosystem_map, normalise_ecosystem}

-- `_OSV_TO_GHSA_ECOSYSTEM`
abbrev pub osv_to_ghsa_ecosystem : List (Text × Text)
osv_to_ghsa_ecosystem =
    (codes "npm", codes "npm")
    ∷ (codes "pypi", codes "pip")
    ∷ (codes "maven", codes "maven")
    ∷ (codes "rubygems", codes "rubygems")
    ∷ (codes "go", codes "go")
    ∷ (codes "packagist", codes "composer")
    ∷ (codes "nuget", codes "nuget")
    ∷ (codes "crates.io", codes "rust")
    ∷ (codes "pub", codes "pub")
    ∷ (codes "hex", codes "erlang")
    ∷ (codes "swifturl", codes "swift")
    ∷ (codes "github actions", codes "actions")
    ∷ []

-- `_ghsa_ecosystem`; `lower` is `str.lower`.
pub ghsa_ecosystem : (Text → Text) → Text → Text
unfolding strip
ghsa_ecosystem lower osv_ecosystem =
    or_default (codes "other") (find_text (lower (strip osv_ecosystem)) osv_to_ghsa_ecosystem)

-- What `str.lower` does to ASCII.
abbrev pub is_ascii : ℕ → Bool
is_ascii c = leb c 127

abbrev pub lower_ascii : ℕ → ℕ
lower_ascii c = if leb 65 c && leb c 90 then c + 32 else c

abbrev pub LowersAscii : (Text → Text) → Type 0
LowersAscii lower = (s : Text) → every is_ascii s ≡ true → lower s ≡ map lower_ascii s

-- The OSV names of the table, without Hex.
abbrev pub returning : List Text
returning =
    codes "npm"
    ∷ codes "PyPI"
    ∷ codes "Maven"
    ∷ codes "RubyGems"
    ∷ codes "Go"
    ∷ codes "Packagist"
    ∷ codes "NuGet"
    ∷ codes "crates.io"
    ∷ codes "Pub"
    ∷ codes "SwiftURL"
    ∷ codes "GitHub Actions"
    ∷ []

-- A name is sent as `there` and read back as `back`, where `lower` works on ASCII.
abbrev sends : Text → Text
sends e = or_default (codes "other") (find_text (map lower_ascii (strip e)) osv_to_ghsa_ecosystem)

abbrev reads : Text → Text
reads e = or_default e (find_text (map lower_ascii e) ecosystem_map)

abbrev comes_back : Text → Text → Bool
comes_back back e =
    every is_ascii (strip e) && every is_ascii (sends e) && text_eq (reads (sends e)) back

comes_back_lem :
    (lower : Text → Text) (back e : Text)
    → LowersAscii lower
    → comes_back back e ≡ true
    → normalise_ecosystem lower (ghsa_ecosystem lower e) ≡ back
unfolding normalise_ecosystem ghsa_ecosystem
comes_back_lem lower back e h c =
    let there =
      ap (λ s. or_default (codes "other") (find_text s osv_to_ghsa_ecosystem))
        (h (strip e) (both _ _ (both _ _ c).0).0) in
    ap (λ s. or_default s (find_text (lower s) ecosystem_map)) there
    ∙ ap (λ s. or_default (sends e) (find_text s ecosystem_map))
        (h (sends e) (both _ _ (both _ _ c).0).1)
    ∙ text_eq_sound (reads (sends e)) back (both _ _ c).1
  where
    both : (a b : Bool) → a && b ≡ true → (a ≡ true) × (b ≡ true)
    both true true h = (refl, refl)
    both true false h = ground (arith, h)
    both false b h = ground (arith, h)

every-is_in :
    (p : Text → Bool) (e : Text) (es : List Text)
    → every p es ≡ true
    → is_in text_eq e es ≡ true
    → p e ≡ true
every-is_in p e [] h i = ground (arith, i)
every-is_in p e (f ∷ fs) h i = elim (Bool-cases (text_eq f e)) [
  | inl same ↦ ap p (sym (text_eq_sound f e same)) ∙ ground (arith, h)
  | inr other ↦ every-is_in p e fs (ground (arith, h)) (ground (arith, other, i))
]

all_come_back : every (λ e. comes_back e e) returning ≡ true
unfolding strip is_space
all_come_back = refl

hex_comes_back : comes_back (codes "erlang") (codes "Hex") ≡ true
unfolding strip is_space
hex_comes_back = refl

erlang_unknown : is_valid_ecosystem (string (codes "erlang")) ≡ false
unfolding is_valid_ecosystem
erlang_unknown = refl

-- Where `str.lower` works on ASCII as documented, each OSV ecosystem in GitHub's table but Hex comes
-- back as itself when it is sent to GitHub and read again. Hex comes back as "erlang", which is no
-- OSV ecosystem.
pub normalise_ecosystem-ghsa_ecosystem :
    (lower : Text → Text)
    → LowersAscii lower
    → ((e : Text)
        → is_in text_eq e returning ≡ true
        → normalise_ecosystem lower (ghsa_ecosystem lower e) ≡ e)
      × (normalise_ecosystem lower (ghsa_ecosystem lower (codes "Hex")) ≡ codes "erlang")
      × (is_valid_ecosystem (string (codes "erlang")) ≡ false)
normalise_ecosystem-ghsa_ecosystem lower h = (
  λ e i. comes_back_lem lower e e h (every-is_in (λ e. comes_back e e) e returning all_come_back i),
  comes_back_lem lower (codes "erlang") (codes "Hex") h hex_comes_back,
  erlang_unknown,
)
