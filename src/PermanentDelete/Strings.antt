-- ===== src/PermanentDelete/Strings.antt =====
-- The strings of crates/dedupe-core/src/permanent_delete.rs, as their bytes in UTF-8, and the bytes
-- that numbers are written in.
use Prim.Native.Nat.{◌/◌, ◌%◌}
use safe_duplicate_finder.Base.{ℕ, zero, suc, ◌+◌, [], ◌∷◌, ◌++◌, Text, ltb, if◌then◌else◌}

-- "TRÌNH TÌM TỆP TRÙNG LẶP AN TOÀN 0.2.1"
abbrev pub release : Text
release =
    84 ∷ 82 ∷ 195 ∷ 140 ∷ 78 ∷ 72 ∷ 32 ∷ 84 ∷ 195 ∷ 140 ∷ 77 ∷ 32 ∷ 84 ∷ 225 ∷ 187 ∷ 134 ∷ 80 ∷ 32
    ∷ 84 ∷ 82 ∷ 195 ∷ 153 ∷ 78 ∷ 71 ∷ 32 ∷ 76 ∷ 225 ∷ 186 ∷ 182 ∷ 80 ∷ 32 ∷ 65 ∷ 78 ∷ 32 ∷ 84 ∷ 79
    ∷ 195 ∷ 128 ∷ 78 ∷ 32 ∷ 48 ∷ 46 ∷ 50 ∷ 46 ∷ 49 ∷ []

-- "XÓA VĨNH VIỄN"
abbrev pub delete_action : Text
delete_action =
    88 ∷ 195 ∷ 147 ∷ 65 ∷ 32 ∷ 86 ∷ 196 ∷ 168 ∷ 78 ∷ 72 ∷ 32 ∷ 86 ∷ 73 ∷ 225 ∷ 187 ∷ 132 ∷ 78 ∷ []

-- "XÓA NGAY VĨNH VIỄN"
abbrev pub delete_now_action : Text
delete_now_action =
    88 ∷ 195 ∷ 147 ∷ 65 ∷ 32 ∷ 78 ∷ 71 ∷ 65 ∷ 89 ∷ 32 ∷ 86 ∷ 196 ∷ 168 ∷ 78 ∷ 72 ∷ 32 ∷ 86 ∷ 73
    ∷ 225 ∷ 187 ∷ 132 ∷ 78 ∷ []

-- " "
abbrev pub space : Text
space = 32 ∷ []

-- " TỆP ĐÃ CÁCH LY ("
abbrev pub quarantined_files : Text
quarantined_files =
    32 ∷ 84 ∷ 225 ∷ 187 ∷ 134 ∷ 80 ∷ 32 ∷ 196 ∷ 144 ∷ 195 ∷ 131 ∷ 32 ∷ 67 ∷ 195 ∷ 129 ∷ 67 ∷ 72 ∷ 32
    ∷ 76 ∷ 89 ∷ 32 ∷ 40 ∷ []

-- " BYTE) TRONG "
abbrev pub byte_in : Text
byte_in = 32 ∷ 66 ∷ 89 ∷ 84 ∷ 69 ∷ 41 ∷ 32 ∷ 84 ∷ 82 ∷ 79 ∷ 78 ∷ 71 ∷ 32 ∷ []

-- "safe-dedupe permanent-delete token v1"
abbrev pub token_context : Text
token_context =
    115 ∷ 97 ∷ 102 ∷ 101 ∷ 45 ∷ 100 ∷ 101 ∷ 100 ∷ 117 ∷ 112 ∷ 101 ∷ 32 ∷ 112 ∷ 101 ∷ 114 ∷ 109 ∷ 97
    ∷ 110 ∷ 101 ∷ 110 ∷ 116 ∷ 45 ∷ 100 ∷ 101 ∷ 108 ∷ 101 ∷ 116 ∷ 101 ∷ 32 ∷ 116 ∷ 111 ∷ 107 ∷ 101
    ∷ 110 ∷ 32 ∷ 118 ∷ 49 ∷ []

-- "safe-dedupe permanent-delete selection v1"
abbrev pub selection_context : Text
selection_context =
    115 ∷ 97 ∷ 102 ∷ 101 ∷ 45 ∷ 100 ∷ 101 ∷ 100 ∷ 117 ∷ 112 ∷ 101 ∷ 32 ∷ 112 ∷ 101 ∷ 114 ∷ 109 ∷ 97
    ∷ 110 ∷ 101 ∷ 110 ∷ 116 ∷ 45 ∷ 100 ∷ 101 ∷ 108 ∷ 101 ∷ 116 ∷ 101 ∷ 32 ∷ 115 ∷ 101 ∷ 108 ∷ 101
    ∷ 99 ∷ 116 ∷ 105 ∷ 111 ∷ 110 ∷ 32 ∷ 118 ∷ 49 ∷ []

-- The last `fuel` decimal digits of a number, without leading zeros.
digits : ℕ → ℕ → Text
digits zero n = []
digits (suc fuel) n =
    let front = digits fuel (n / 10) in (if ltb n 10 then [] else front) ++ ((48 + n % 10) ∷ [])

-- `Display` of a `u64`, which has at most 20 digits.
unfoldable pub decimal : ℕ → Text
unfolding digits
decimal n = digits 20 n

unfoldable pub little_endian : ℕ → ℕ → Text
little_endian zero n = []
little_endian (suc width) n = (n % 256) ∷ little_endian width (n / 256)

-- `u64::to_le_bytes`
unfoldable pub to_le_bytes : ℕ → Text
unfolding little_endian
to_le_bytes n = little_endian 8 n
