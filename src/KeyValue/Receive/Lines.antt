-- ===== src/KeyValue/Receive/Lines.antt =====
-- The string functions that the receiving side of Z_my_work_mem/tcp_server.c calls: strstr for the
-- end of a line, atoi, and the search for the next command.
use bo_atom.Prelude.{
  ℕ, zero, suc, ◌+◌, ◌-◌, ◌*◌, ◌^◌, Bool, false, ◌&&◌, ◌||◌, Option, none, some, List, [], ◌∷◌,
  ◌==◌, leb, if◌then◌else◌, length, ◌>>=◌,
}

-- What `strstr(pre, "\r\n")` finds: nothing before a NUL, the place, or neither up to the array's end.
pub data Line : Type 0 where
  missing unterminated : Line
  ends_at : ℕ → Line

abbrev pub starts_with_lf : List ℕ → Bool
starts_with_lf [] = false
starts_with_lf (b ∷ bs) = b == 10

-- `strstr`, from index `i`, behind which the array has these bytes
unfoldable pub line_end : ℕ → List ℕ → Line
line_end i [] = unterminated
line_end i (b ∷ bs) =
    let rest = line_end (suc i) bs in
    if b == 0 then missing else if b == 13 && starts_with_lf bs then ends_at i else rest

-- The search for '*' in the next `n` bytes; none where there is none.
unfoldable pub star_from : ℕ → ℕ → List ℕ → Option ℕ
star_from zero i bs = none
star_from (suc n) i [] = none
star_from (suc n) i (b ∷ bs) = let rest = star_from n (suc i) bs in if b == 42 then some i else rest

abbrev pub is_digit : ℕ → Bool
is_digit b = leb 48 b && leb b 57

abbrev pub is_space : ℕ → Bool
is_space b = b == 32 || (leb 9 b && leb b 13)

-- the number that the digits up to the first other byte give, behind `n`
unfoldable pub digits : ℕ → List ℕ → ℕ
digits n [] = n
digits n (b ∷ bs) = let rest = digits (10 * n + (b - 48)) bs in if is_digit b then rest else n

abbrev pub int_max : ℕ
int_max = 2 ^ 31 - 1

-- An `int`: its sign, and its absolute value.
pub data Number : Type 0 where
  plus minus : ℕ → Number

-- atoi; none for a number that does not fit
unfoldable pub atoi : List ℕ → Option Number
unfolding digits
atoi [] = some (plus 0)
atoi (b ∷ bs) =
    let skipped = atoi bs in
    if is_space b
    then skipped
    else if b == 45
    then (if leb (digits 0 bs) int_max then some (minus (digits 0 bs)) else none)
    else if b == 43
    then (if leb (digits 0 bs) int_max then some (plus (digits 0 bs)) else none)
    else if leb (digits 0 (b ∷ bs)) int_max
    then some (plus (digits 0 (b ∷ bs)))
    else none

-- `num = atoi(pre); num += 1 + strlen(pre) + 2 + 2;` on the line behind '$', where a sum that is negative or
-- does not fit, and so becomes negative, is 0
unfoldable pub item_size : List ℕ → Option ℕ
unfolding atoi
item_size line = atoi line >>= (λ num. elim num [
  | minus n ↦ some (1 + length line + 2 + 2 - n)
  | plus n ↦
      some (if leb (n + 1 + length line + 2 + 2) int_max then n + 1 + length line + 2 + 2 else 0)
])
