-- ===== src/Go/HostPort.antt =====
-- `net.SplitHostPort`, `net.JoinHostPort` and `strconv.Atoi`.
pub mod Joined
pub mod Digits
use velinx.Base.{
  ℕ, ◌+◌, ◌-◌, ◌*◌, ◌^◌, Bool, true, false, List, [], ◌∷◌, ◌++◌, ◌&&◌, ◌||◌, not, ◌==◌,
  if◌then◌else◌, Option, none, some, ltb, leb, ℤ, pos, negsuc,
}
use velinx.Go.Strings.{is_digit, is_empty}

unfoldable pub has_code : ℕ → List ℕ → Bool
has_code k [] = false
has_code k (c ∷ s) = c == k || has_code k s

unfoldable pub colon_step : ℕ → List ℕ → Option (List ℕ × List ℕ) → Option (List ℕ × List ℕ)
colon_step c s (some (a, b)) = some (c ∷ a, b)
colon_step c s none = if c == b':' then some ([], s) else none

-- What stands before and after the last colon.
unfoldable pub at_last_colon : List ℕ → Option (List ℕ × List ℕ)
unfolding colon_step
at_last_colon [] = none
at_last_colon (c ∷ s) = colon_step c s (at_last_colon s)

unfoldable pub closing_step : ℕ → List ℕ → Option (List ℕ) → Option (List ℕ)
unfolding is_empty
closing_step c s (some h) = if c == b']' then none else some (c ∷ h)
closing_step c s none = if c == b']' && is_empty s then some [] else none

-- What stands before a bracket that closes at the end of the text, if it is the first one.
unfoldable pub until_closing : List ℕ → Option (List ℕ)
unfolding closing_step
until_closing [] = none
until_closing (c ∷ s) = closing_step c s (until_closing s)

unfoldable pub inside : Option (List ℕ) → List ℕ → Option (List ℕ × List ℕ)
unfolding has_code
inside none port = none
inside (some host) port =
    if has_code b'[' host || has_code b'[' port || has_code b']' port
    then none
    else some (host, port)

-- The host in brackets, of which it has no more; `a` stands between the opening bracket and the last
-- colon.
unfoldable pub bracketed : List ℕ → List ℕ → Option (List ℕ × List ℕ)
unfolding until_closing inside
bracketed a port = inside (until_closing a) port

unfoldable pub bare : List ℕ → List ℕ → Option (List ℕ × List ℕ)
unfolding has_code
bare host port =
    if has_code b':' host
      || has_code b'[' host
      || has_code b'[' port
      || has_code b']' host
      || has_code b']' port
    then none
    else some (host, port)

unfoldable pub host_and_port : Option (List ℕ × List ℕ) → Option (List ℕ × List ℕ)
unfolding bracketed bare
host_and_port none = none
host_and_port (some ([], port)) = bare [] port
host_and_port (some (c ∷ a, port)) = if c == b'[' then bracketed a port else bare (c ∷ a) port

-- `none` is an error.
unfoldable pub split_host_port : List ℕ → Option (List ℕ × List ℕ)
unfolding host_and_port at_last_colon
split_host_port s = host_and_port (at_last_colon s)

unfoldable pub join_host_port : List ℕ → List ℕ → List ℕ
unfolding has_code
join_host_port host port =
    if has_code b':' host
    then (b'[' ∷ (host ++ (b']' ∷ []))) ++ b':' ∷ port
    else host ++ b':' ∷ port

-- A number in decimal digits.
unfoldable pub digits_value : ℕ → List ℕ → Option ℕ
digits_value n [] = some n
digits_value n (c ∷ s) =
    let rest = digits_value (n * 10 + (c - b'0')) s in if is_digit c then rest else none

unfoldable pub positive : Option ℕ → Option ℤ
positive none = none
positive (some n) = if ltb n (2 ^ 63) then some (pos n) else none

negative : Option ℕ → Option ℤ
negative none = none
negative (some n) = if leb n (2 ^ 63) then some (if n == 0 then pos 0 else negsuc (n - 1)) else none

unfoldable pub some_digits : List ℕ → Option ℕ
unfolding digits_value
some_digits [] = none
some_digits (c ∷ s) = digits_value 0 (c ∷ s)

-- `strconv.Atoi`: a number of 64 bits with its sign.
unfoldable pub atoi : List ℕ → Option ℤ
unfolding positive negative some_digits
atoi [] = none
atoi (c ∷ s) =
    if c == b'+'
    then positive (some_digits s)
    else if c == b'-'
    then negative (some_digits s)
    else positive (some_digits (c ∷ s))
