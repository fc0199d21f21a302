-- ===== src/Config/Names.antt =====
-- internal/config/profile.go: the expressions for names, methods and codes, and `checkCode`.

use placitum_counter.Prelude.{
  Bool, List, Result, String, [], beq, codes, fail_if, false, is_digit, is_lower, is_upper, leb,
  length, not, true, ℕ, ◌&&◌, ◌==◌, ◌||◌, ◌∷◌,
}

is_name_start : ℕ → Bool
is_name_start c = is_upper c || is_lower c || is_digit c

is_name_rest : ℕ → Bool
unfolding is_name_start
is_name_rest c = is_name_start c || beq c b'.' || beq c b'_' || beq c b'-'

all_runes : (ℕ → Bool) → List ℕ → Bool
all_runes p [] = true
all_runes p (c ∷ s) = p c && all_runes p s

is_name : List ℕ → Bool
unfolding is_name_rest all_runes
is_name [] = false
is_name (c ∷ s) = is_name_start c && all_runes is_name_rest s

-- `nameRe`
unfoldable pub name_re : String → Bool
unfolding is_name
name_re s = is_name (codes s)

is_method : List ℕ → Bool
unfolding all_runes
is_method [] = false
is_method (c ∷ s) = is_upper c && all_runes is_upper s

-- `methodRe`
unfoldable pub method_re : String → Bool
unfolding is_method
method_re s = is_method (codes s)

is_code_rest : ℕ → Bool
is_code_rest c = is_upper c || is_digit c || beq c b'_'

is_code : List ℕ → Bool
unfolding is_code_rest all_runes
is_code [] = false
is_code (c ∷ s) = is_upper c && all_runes is_code_rest s && leb (length s) 63

-- `codeRe`
unfoldable pub code_re : String → Bool
unfolding is_code
code_re s = is_code (codes s)

-- `checkCode`
unfoldable pub check_code : String → Result (Unit {0})
check_code code =
    fail_if (not (code == "") && not (code_re code)) "code %q is not [A-Z][A-Z0-9_]{0,63}"
