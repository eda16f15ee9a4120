-- ===== src/Kmp/Tests.antt =====
-- Runs of the search of Project1/FileTransMain.cpp.
use exec.Base.{ℕ, ◌≡◌, refl, List, [], ◌∷◌, arith, some, Returns, true}
use exec.Base.Int.{pos, negsuc}
use exec.Kmp.{trim, kmp, get_pi, pi_loop, pi_step, fall_back, match_loop, match_step}
use exec.Kmp.Search.{IsFound, kmp-naive}
use exec.Kmp.Count.{IsMiscounted, kmp-intslen}

-- "ababa" and "aba"
abbrev text : List ℕ
text = 97 ∷ 98 ∷ 97 ∷ 98 ∷ 97 ∷ []

abbrev pattern_text : List ℕ
pattern_text = 97 ∷ 98 ∷ 97 ∷ []

kmp_overlaps :
    kmp true true text pattern_text
    ≡ some (some (pos 0 ∷ pos 2 ∷ negsuc 0 ∷ negsuc 0 ∷ negsuc 0 ∷ [], 2))
unfolding kmp get_pi pi_loop pi_step fall_back match_loop match_step
kmp_overlaps = refl

trim_drops_newline : trim (97 ∷ 10 ∷ []) ≡ some (97 ∷ [])
unfolding trim
trim_drops_newline = refl

kmp-naive_example : Returns (IsFound text pattern_text) (kmp true true text pattern_text)
kmp-naive_example = kmp-naive text pattern_text (omega arith)

kmp-intslen_example : Returns (IsMiscounted text) (kmp true true text pattern_text)
kmp-intslen_example = kmp-intslen text pattern_text (omega arith) refl
