-- ===== src/Interface/Address.antt =====
-- `process_address` of source/m2minterfaceimpl.cpp, with the operations of source/m2mstring.cpp
-- that it uses, and the prefix of the URI. `atoi` of the C library is a parameter.
use mbed_client.Common.{
  ℕ, zero, suc, ◌+◌, ◌-◌, ◌≤◌, ◌≡◌, refl, ap, ◌∙◌, Bool, false, List, [], ◌∷◌, ◌++◌, length, take,
  drop, All, Option, none, some, leb, ◌==◌, if◌then◌else◌, arith, length-append, take-append,
}
use mbed_client.Common.Int.{ℤ}
use mbed_client.Tlv.Serializer.{to_u16}
use mbed_client.Interface.{Security}

-- The position of the last `c`; `none` is -1.
unfoldable pub find_last_of : ℕ → List ℕ → Option ℕ
find_last_of c [] = none
find_last_of c (x ∷ xs) = elim (find_last_of c xs) [
  | some i ↦ some (suc i)
  | none ↦ if x == c then some 0 else none
]

-- A start behind the end gives the empty string.
unfoldable pub substr : List ℕ → ℕ → ℕ → List ℕ
substr s position n = if leb position (length s) then take n (drop position s) else []

-- `compare(0, 1, "[") == 0`
abbrev pub starts_bracket : List ℕ → Bool
starts_bracket [] = false
starts_bracket (x ∷ xs) = x == b'['

-- The address part of the text before the last colon.
unfoldable pub bare_address : List ℕ → List ℕ
unfolding find_last_of substr
bare_address ip =
    if starts_bracket ip
    then elim (find_last_of b']' ip) [ none ↦ [] | some i ↦ substr ip 1 (i - 1) ]
    else elim (find_last_of b']' ip) [ none ↦ ip | some i ↦ [] ]

-- The address and the port; without a colon both stay what they were.
unfoldable pub process_address : (List ℕ → ℤ) → List ℕ → List ℕ × ℕ → List ℕ × ℕ
unfolding bare_address
process_address atoi server old = elim (find_last_of b':' server) [
  | none ↦ old
  | some colon ↦
      let ip = substr server 0 colon in
      (bare_address ip, to_u16 (atoi (substr server (colon + 1) (length server - length ip))))
]

-- `compare(0, sizeof(prefix) - 1, prefix) == 0`, and the text behind the prefix.
unfoldable pub behind : List ℕ → List ℕ → Option (List ℕ)
behind [] s = some s
behind (c ∷ cs) [] = none
behind (c ∷ cs) (x ∷ xs) = let rest = behind cs xs in if c == x then rest else none

abbrev pub coap : List ℕ
coap = b'c' ∷ b'o' ∷ b'a' ∷ b'p' ∷ b':' ∷ b'/' ∷ b'/' ∷ []

abbrev pub coaps : List ℕ
coaps = b'c' ∷ b'o' ∷ b'a' ∷ b'p' ∷ b's' ∷ b':' ∷ b'/' ∷ b'/' ∷ []

-- The server's address in the URI, if its scheme is known and fits the security mode.
unfoldable pub server_address : Security → Option (List ℕ)
unfolding behind
server_address s = elim (behind coap s.uri) [
  | some rest ↦ some rest
  | none ↦ if s.secure then behind coaps s.uri else none
]

-- No character of the text is `c`.
abbrev pub Lacks : ℕ → List ℕ → Type 0
Lacks c xs = All (λ x. (x == c) ≡ false) xs

find_last_of-Lacks : (c : ℕ) (xs : List ℕ) → Lacks c xs → find_last_of c xs ≡ none
unfolding find_last_of
find_last_of-Lacks c [] h = refl
find_last_of-Lacks c (x ∷ xs) h = ground (arith, find_last_of-Lacks c xs h.1)

find_last_of-append :
    (c : ℕ) (xs ys : List ℕ) → Lacks c ys → find_last_of c (xs ++ (c ∷ ys)) ≡ some (length xs)
unfolding find_last_of
find_last_of-append c [] ys h = ground (arith, find_last_of-Lacks c ys h)
find_last_of-append c (x ∷ xs) ys h = ground (arith, find_last_of-append c xs ys h)

substr_front : (xs ys : List ℕ) → substr (xs ++ ys) 0 (length xs) ≡ xs
unfolding substr
substr_front xs ys = ground (arith, take-append xs ys)

-- Behind one character.
substr_middle : (c : ℕ) (xs ys : List ℕ) → substr (c ∷ (xs ++ ys)) 1 (length xs) ≡ xs
unfolding substr
substr_middle c xs ys = ground (arith, take-append xs ys)

take_all : (n : ℕ) (xs : List ℕ) → length xs ≤ n → take n xs ≡ xs
take_all zero [] h = refl
take_all zero (x ∷ xs) h = absurd (omega arith)
take_all (suc n) [] h = refl
take_all (suc n) (x ∷ xs) h = ap (◌∷◌ x) (take_all n xs (omega arith))

drop_behind : (xs ys : List ℕ) (c : ℕ) → drop (length xs + 1) (xs ++ (c ∷ ys)) ≡ ys
drop_behind [] ys c = refl
drop_behind (x ∷ xs) ys c = ground (arith, drop_behind xs ys c)

substr_back :
    (xs ys : List ℕ) (c n : ℕ) → length ys ≤ n → substr (xs ++ (c ∷ ys)) (length xs + 1) n ≡ ys
unfolding substr
substr_back xs ys c n h =
    ground (arith, length-append xs (c ∷ ys), drop_behind xs ys c, take_all n ys h)

process_address_split :
    (atoi : List ℕ → ℤ) (ip port : List ℕ) (old : List ℕ × ℕ)
    → Lacks b':' port
    → process_address atoi (ip ++ (b':' ∷ port)) old ≡ (bare_address ip, to_u16 (atoi port))
unfolding process_address
process_address_split atoi ip port old h =
    let server = ip ++ (b':' ∷ port) in
    let colon = find_last_of-append b':' ip port h in
    let front = substr_front ip (b':' ∷ port) in
    let room : length port ≤ length server - length ip =
      omega (arith, length-append ip (b':' ∷ port)) in
    let back = substr_back ip port b':' (length server - length ip) room in
    ground (arith, colon, front, back)

bare_address_bare :
    (host : List ℕ) → starts_bracket host ≡ false → Lacks b']' host → bare_address host ≡ host
unfolding bare_address
bare_address_bare host opening closing = ground (arith, find_last_of-Lacks b']' host closing)

bare_address_brackets : (host : List ℕ) → bare_address (b'[' ∷ (host ++ (b']' ∷ []))) ≡ host
unfolding bare_address
bare_address_brackets host =
    let last = find_last_of-append b']' (b'[' ∷ host) [] tt in
    let middle = substr_middle b'[' host (b']' ∷ []) in ground (arith, last, middle)

-- A host without brackets, a colon and a port without a colon are taken apart again; the port's
-- number is taken modulo 2 ^ 16.
pub process_address_bare :
    (atoi : List ℕ → ℤ) (host port : List ℕ) (old : List ℕ × ℕ)
    → starts_bracket host ≡ false
    → Lacks b']' host
    → Lacks b':' port
    → process_address atoi (host ++ (b':' ∷ port)) old ≡ (host, to_u16 (atoi port))
process_address_bare atoi host port old opening closing h =
    process_address_split atoi host port old h
    ∙ ap (λ x. (x, to_u16 (atoi port))) (bare_address_bare host opening closing)

-- A host in brackets, with colons of its own or not, a colon and a port without a colon are taken
-- apart; the port's number is taken modulo 2 ^ 16.
pub process_address_brackets :
    (atoi : List ℕ → ℤ) (host port : List ℕ) (old : List ℕ × ℕ)
    → Lacks b':' port
    → process_address atoi ((b'[' ∷ (host ++ (b']' ∷ []))) ++ (b':' ∷ port)) old
      ≡ (host, to_u16 (atoi port))
process_address_brackets atoi host port old h =
    process_address_split atoi (b'[' ∷ (host ++ (b']' ∷ []))) port old h
    ∙ ap (λ x. (x, to_u16 (atoi port))) (bare_address_brackets host)
