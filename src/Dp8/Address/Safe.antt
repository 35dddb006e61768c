-- ===== src/Dp8/Address/Safe.antt =====
-- Which texts the address of a client can be, and that the scan for it ends.
use open_zone.Base.{
  ℕ, zero, suc, ◌≤◌, ◌≡◌, ◌⊎◌, inl, inr, refl, Bool, true, false, not, ◌&&◌, ◌||◌, [], ◌∷◌, ◌++◌,
  Text, codes, arith, eqb, ltb, length, drop, length-drop-le, Bool-cases, Option-cases, All,
}
use open_zone.Base.Attrs.{is_empty}
use open_zone.Base.Numbers.{is_digit}
use open_zone.Base.Strings.{cut, cut_when, cut_when-eq-none, cut_when-CutAt}
use open_zone.Dp8.Address.{
  up_to, ends_value, find_dp8_url_kv, is_ipv4_byte, looks_like_ipv4, span, count_dots, port_of,
  find_loop, find_ipv4_and_port, parse_remote_from_dp8_url,
}

-- Empty, or digits and dots with at least one dot.
abbrev pub IsAddress : Text → Type 0
IsAddress s = (is_empty s ≡ true) ⊎ (looks_like_ipv4 s ≡ true)

length-span-le : (p : ℕ → Bool) (s : Text) → length (span p s).1 ≤ length s
unfolding span
length-span-le p [] = omega arith
length-span-le p (c ∷ s) = ground (arith, length-span-le p s)

find_loop-IsAddress : (f : ℕ) (s : Text) → IsAddress (find_loop f s).0
unfolding find_loop
find_loop-IsAddress zero s = inl refl
find_loop-IsAddress (suc f) [] = inl refl
find_loop-IsAddress (suc f) (c ∷ s) =
    let (cand, rest) = span is_ipv4_byte (c ∷ s) in
    elim (Bool-cases (is_digit c)) [
      | inr other ↦ rw (other, find_loop) (find_loop-IsAddress f s)
      | inl digit ↦ elim (Bool-cases (ltb (count_dots cand) 3 || not (looks_like_ipv4 cand))) [
        | inl short ↦ rw (digit, find_loop) (rw short (find_loop-IsAddress f (drop 1 rest)))
        | inr found ↦ rw (digit, find_loop) (rw found (inr (ground arith)))
      ]
    ]

abbrev IsPort : Text → Type 0
IsPort = All (λ c. ends_value c ≡ false)

up_to-IsPort : (s : Text) → IsPort (up_to s (cut_when ends_value s))
up_to-IsPort s = elim (Option-cases (cut_when ends_value s)) [
  | inl whole ↦ rw whole (cut_when-eq-none ends_value s whole)
  | inr (q, ended) ↦ rw ended (cut_when-CutAt ends_value s q ended).3
]

find_dp8_url_kv-IsPort : (url key : Text) → IsPort (find_dp8_url_kv url key)
unfolding find_dp8_url_kv
find_dp8_url_kv-IsPort url key = elim (Option-cases (cut (key ++ codes "=") url)) [
  | inl absent ↦ rw absent tt
  | inr (q, present) ↦ rw present (up_to-IsPort q.1)
]

span-IsPort : (s : Text) → IsPort (span is_digit s).0
unfolding span
span-IsPort [] = tt
span-IsPort (c ∷ s) = elim (Bool-cases (is_digit c)) [
  | inl digit ↦ rw digit (ground arith, span-IsPort s)
  | inr other ↦ rw other tt
]

port_of-IsPort : (s : Text) → IsPort (port_of s)
port_of-IsPort [] = tt
port_of-IsPort (c ∷ s) = elim (Bool-cases (eqb c b':')) [
  | inl colon ↦ rw colon (span-IsPort s)
  | inr other ↦ rw other tt
]

find_loop-IsPort : (f : ℕ) (s : Text) → IsPort (find_loop f s).1
unfolding find_loop
find_loop-IsPort zero s = tt
find_loop-IsPort (suc f) [] = tt
find_loop-IsPort (suc f) (c ∷ s) =
    let (cand, rest) = span is_ipv4_byte (c ∷ s) in
    elim (Bool-cases (is_digit c)) [
      | inr other ↦ rw (other, find_loop) (find_loop-IsPort f s)
      | inl digit ↦ elim (Bool-cases (ltb (count_dots cand) 3 || not (looks_like_ipv4 cand))) [
        | inl short ↦ rw (digit, find_loop) (rw short (find_loop-IsPort f (drop 1 rest)))
        | inr found ↦ rw (digit, find_loop) (rw found (port_of-IsPort rest))
      ]
    ]

-- What is kept of a client's address URL: the address is empty or made of digits and dots with a dot
-- among them, so no host name is kept, and the port holds no separator of the URL.
pub parse_remote_from_dp8_url-safe :
    (url : Text)
    → IsAddress (parse_remote_from_dp8_url url).ip
      × All (λ c. ends_value c ≡ false) (parse_remote_from_dp8_url url).port
unfolding parse_remote_from_dp8_url find_ipv4_and_port
parse_remote_from_dp8_url-safe url =
    let host = find_dp8_url_kv url (codes "hostname") in
    let port = find_dp8_url_kv-IsPort url (codes "port") in
    let found = find_loop (length url) url in
    elim (Bool-cases (not (is_empty host) && looks_like_ipv4 host)) [
      | inl literal ↦
          let some_host : is_empty host ≡ false = ground arith in
          rw literal (rw some_host (inr (ground arith), port))
      | inr other ↦ elim (Bool-cases (is_empty found.0)) [
        | inl missing ↦ rw other (rw missing (inl refl, port))
        | inr there ↦ elim (Bool-cases (is_empty (find_dp8_url_kv url (codes "port")))) [
          | inl open_port ↦ rw other (
              rw there (
                rw open_port
                  (find_loop-IsAddress (length url) url, find_loop-IsPort (length url) url)))
          | inr given ↦ rw other (rw there (rw given (find_loop-IsAddress (length url) url, port)))
        ]
      ]
    ]

-- Any two amounts of fuel that are at least the length of the text find the same address and port.
find_loop_fuel : (f g : ℕ) (s : Text) → length s ≤ f → length s ≤ g → find_loop f s ≡ find_loop g s
unfolding find_loop
find_loop_fuel zero zero s hf hg = refl
find_loop_fuel zero (suc g) [] hf hg = refl
find_loop_fuel (suc f) zero [] hf hg = refl
find_loop_fuel (suc f) (suc g) [] hf hg = refl
find_loop_fuel zero (suc g) (c ∷ s) hf hg = absurd (omega arith)
find_loop_fuel (suc f) zero (c ∷ s) hf hg = absurd (omega arith)
find_loop_fuel (suc f) (suc g) (c ∷ s) hf hg =
    let (cand, rest) = span is_ipv4_byte (c ∷ s) in
    elim (Bool-cases (is_digit c)) [
      | inr other ↦ rw (other, find_loop) (find_loop_fuel f g s (omega arith) (omega arith))
      | inl digit ↦ elim (Bool-cases (ltb (count_dots cand) 3 || not (looks_like_ipv4 cand))) [
        | inl short ↦
            let shorter : length (drop 1 rest) ≤ length s = behind_span c s digit in
            rw (digit, find_loop)
              (rw short (
                find_loop_fuel f g (drop 1 rest) (omega (arith, shorter)) (omega (arith, shorter))))
        | inr found ↦ rw (digit, find_loop) (rw found refl)
      ]
    ]
  where
    behind_span :
        (c : ℕ) (s : Text)
        → is_digit c ≡ true
        → length (drop 1 (span is_ipv4_byte (c ∷ s)).1) ≤ length s
    behind_span c s digit =
        unfold span in
        (let some_byte : is_ipv4_byte c ≡ true = ground arith in
          rw some_byte (
            omega (arith, length-drop-le 1 (span is_ipv4_byte s).1, length-span-le is_ipv4_byte s)))
