-- ===== src/Cookie.antt =====
-- create.c: the cookie that begins a footer, and the test for it.
pub mod Last
use mini_vhd.Prelude.{ℕ, ◌+◌, ◌==◌, ◌&&◌, Bool, true, List, [], ◌∷◌}
use mini_vhd.Memory.{Mem}

-- strncmp(mem + i, cs, strlen(cs)) == 0
unfoldable pub begins_with : List ℕ → Mem → ℕ → Bool
begins_with [] mem i = true
begins_with (c ∷ cs) mem i = (mem i == c) && begins_with cs mem (i + 1)

-- "conectix"
abbrev pub conectix_cookie : List ℕ
conectix_cookie = 99 ∷ 111 ∷ 110 ∷ 101 ∷ 99 ∷ 116 ∷ 105 ∷ 120 ∷ []

unfoldable pub is_conectix_str : Mem → Bool
is_conectix_str buffer = begins_with conectix_cookie buffer 0
