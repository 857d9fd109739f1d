-- ===== src/Documents/Ecosystems.antt =====
-- The OSV ecosystems (advisories/ecosystems.py).
use advisoryhub.Prelude.{Bool, true, false, not, ◌&&◌, ◌||◌, ◌==◌, List, [], ◌∷◌, Text, codes}
use advisoryhub.Documents.Json.{Json, string}
use advisoryhub.Documents.Lists.{every}

-- `OSV_ECOSYSTEMS`
abbrev pub osv_ecosystems : List Text
osv_ecosystems =
    codes "AlmaLinux"
    ∷ codes "Alpaquita"
    ∷ codes "Alpine"
    ∷ codes "Android"
    ∷ codes "BellSoft Hardened Containers"
    ∷ codes "Bioconductor"
    ∷ codes "Bitnami"
    ∷ codes "Chainguard"
    ∷ codes "CleanStart"
    ∷ codes "ConanCenter"
    ∷ codes "CRAN"
    ∷ codes "crates.io"
    ∷ codes "Debian"
    ∷ codes "Docker Hardened Images"
    ∷ codes "Echo"
    ∷ codes "FreeBSD"
    ∷ codes "GHC"
    ∷ codes "GitHub Actions"
    ∷ codes "Go"
    ∷ codes "Hackage"
    ∷ codes "Hex"
    ∷ codes "Julia"
    ∷ codes "Kubernetes"
    ∷ codes "Linux"
    ∷ codes "Mageia"
    ∷ codes "Maven"
    ∷ codes "MinimOS"
    ∷ codes "npm"
    ∷ codes "NuGet"
    ∷ codes "opam"
    ∷ codes "openEuler"
    ∷ codes "openSUSE"
    ∷ codes "OSS-Fuzz"
    ∷ codes "Packagist"
    ∷ codes "Photon OS"
    ∷ codes "Pub"
    ∷ codes "PyPI"
    ∷ codes "Red Hat"
    ∷ codes "Rocky Linux"
    ∷ codes "Root"
    ∷ codes "RubyGems"
    ∷ codes "SUSE"
    ∷ codes "SwiftURL"
    ∷ codes "Ubuntu"
    ∷ codes "VSCode"
    ∷ codes "Wolfi"
    ∷ codes "GIT"
    ∷ []

-- `(?::.+)?` up to the end: `.` takes no line feed.
abbrev is_suffix : Text → Bool
is_suffix [] = true
is_suffix (c ∷ []) = false
is_suffix (c ∷ d ∷ s) = c == 58 && every (λ x. not (x == 10)) (d ∷ s)

abbrev after_name : Text → Text → Bool
after_name [] s = is_suffix s
after_name (n ∷ ns) [] = false
after_name (n ∷ ns) (c ∷ s) = n == c && after_name ns s

abbrev names_one : List Text → Text → Bool
names_one [] s = false
names_one (n ∷ ns) s = after_name n s || names_one ns s

-- `is_valid_ecosystem`
unfoldable pub is_valid_ecosystem : Json → Bool
is_valid_ecosystem (string s) = names_one osv_ecosystems s
is_valid_ecosystem _ = false
