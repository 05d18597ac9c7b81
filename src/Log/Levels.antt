-- ===== src/Log/Levels.antt =====
-- The texts of the levels, read back.
use rxdaemon.Prelude.{
  ℕ, zero, suc, ◌<◌, ◌≤◌, String, ◌≡◌, refl, arith, ltb, ltb→lt, if◌then◌else◌, Bool-cases, inl,
  inr,
}
use rxdaemon.Log.{level_string, level_from_string, level_info}

level_from_string-level_string_small : (l : ℕ) → l < 8 → level_from_string (level_string l) ≡ l
unfolding level_from_string level_string
level_from_string-level_string_small zero h = refl
level_from_string-level_string_small (suc zero) h = refl
level_from_string-level_string_small (suc (suc zero)) h = refl
level_from_string-level_string_small (suc (suc (suc zero))) h = refl
level_from_string-level_string_small (suc (suc (suc (suc zero)))) h = refl
level_from_string-level_string_small (suc (suc (suc (suc (suc zero))))) h = refl
level_from_string-level_string_small (suc (suc (suc (suc (suc (suc zero)))))) h = refl
level_from_string-level_string_small (suc (suc (suc (suc (suc (suc (suc zero))))))) h = refl
level_from_string-level_string_small (suc (suc (suc (suc (suc (suc (suc (suc n)))))))) h =
    absurd (omega arith)

level_string_large : (l : ℕ) → 8 ≤ l → level_string l ≡ "INFO"
unfolding level_string
level_string_large l h = ground arith

read_info : level_from_string "INFO" ≡ level_info
unfolding level_from_string
read_info = refl

-- Each of the eight levels is read back from its text, and every other level is printed as, and read
-- back as, the info level.
level_from_string-level_string :
    (l : ℕ) → level_from_string (level_string l) ≡ (if ltb l 8 then l else level_info)
level_from_string-level_string l = elim (Bool-cases (ltb l 8)) [
  | inl y ↦ rw y (level_from_string-level_string_small l (ltb→lt l 8 y))
  | inr n ↦ rw (n, level_string_large l (ground arith)) read_info
]

-- Every text, known or not, is read as one of the eight levels.
pub level_from_string-lt : (s : String) → level_from_string s < 8
unfolding level_from_string
level_from_string-lt s = ground arith
