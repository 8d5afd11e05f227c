-- ===== src/Rpc/MachineName.antt =====
-- What the truncation of machine names in src/rpc.rs keeps: the limit of AUTH_SYS, and valid UTF-8.
use nfs.Prelude.{
  ℕ, zero, suc, ◌≤◌, ◌<◌, ◌≡◌, refl, Bool, true, false, not, ◌&&◌, ◌||◌, none, some, List, [], ◌∷◌,
  ◌++◌, arith, leb, ◌==◌, if◌then◌else◌, length, take, drop, get_elem?, le→leb, leb→le,
  take-append-drop, take-all, length-take, Bool-cases, Option-cases, inl, inr,
}
use nfs.Xdr.Utf8.{
  Utf8State, start, expect, invalid, lead_byte, utf8_step, utf8_run, is_start, is_utf8, after,
  is_continuation, boundary_at, is_char_boundary,
}
use nfs.Rpc.{auth_sys_machine_name_max}
use nfs.Rpc.Auth.{back_to_boundary, normalized_machine_name_len, normalize_machine_name}

utf8_run-append :
    (s : Utf8State) (xs ys : List ℕ) → utf8_run s (xs ++ ys) ≡ utf8_run (utf8_run s xs) ys
unfolding utf8_run
utf8_run-append s [] ys = refl
utf8_run-append s (x ∷ xs) ys = utf8_run-append (utf8_step s x) xs ys

-- A state inside a character waits for continuation bytes only.
abbrev AwaitsContinuation : Utf8State → Type 0
AwaitsContinuation (expect n lo hi) = (0x80 ≤ lo) × (hi ≤ 0xbf)
AwaitsContinuation _ = Unit {0}

record IsState (s : Utf8State) : Type 0 where
  range : AwaitsContinuation s

start-IsState : IsState start
start-IsState = record { range = tt }

invalid-IsState : IsState invalid
invalid-IsState = record { range = tt }

expect-IsState : (n lo hi : ℕ) → 0x80 ≤ lo → hi ≤ 0xbf → IsState (expect n lo hi)
expect-IsState n lo hi h k = record { range = (h, k) }

if-IsState : (b : Bool) (s t : Utf8State) → IsState s → IsState t → IsState (if b then s else t)
if-IsState true s t p q = p
if-IsState false s t p q = q

after-IsState : (n : ℕ) → IsState (after n)
after-IsState zero = start-IsState
after-IsState (suc n) = expect-IsState n 0x80 0xbf (omega arith) (omega arith)

lead_byte-IsState : (b : ℕ) → IsState (lead_byte b)
unfolding lead_byte
lead_byte-IsState b =
    let inside = λ (n lo hi : ℕ) (h : 0x80 ≤ lo) (k : hi ≤ 0xbf). expect-IsState n lo hi h k in
    if-IsState _ _ _ start-IsState (
      if-IsState _ _ _ invalid-IsState (
        if-IsState _ _ _ (inside 0 0x80 0xbf (omega arith) (omega arith)) (
          if-IsState _ _ _ (inside 1 0xa0 0xbf (omega arith) (omega arith)) (
            if-IsState _ _ _ (inside 1 0x80 0x9f (omega arith) (omega arith)) (
              if-IsState _ _ _ (inside 1 0x80 0xbf (omega arith) (omega arith)) (
                if-IsState _ _ _ (inside 2 0x90 0xbf (omega arith) (omega arith)) (
                  if-IsState _ _ _ (inside 2 0x80 0xbf (omega arith) (omega arith)) (
                    if-IsState _ _ _ (inside 2 0x80 0x8f (omega arith) (omega arith))
                      invalid-IsState))))))))

utf8_step-IsState : (s : Utf8State) (b : ℕ) → IsState s → IsState (utf8_step s b)
unfolding utf8_step
utf8_step-IsState start b h = lead_byte-IsState b
utf8_step-IsState (expect n lo hi) b h = if-IsState _ _ _ (after-IsState n) invalid-IsState
utf8_step-IsState invalid b h = h

utf8_run-IsState : (s : Utf8State) (bs : List ℕ) → IsState s → IsState (utf8_run s bs)
unfolding utf8_run
utf8_run-IsState s [] h = h
utf8_run-IsState s (b ∷ bs) h = utf8_run-IsState (utf8_step s b) bs (utf8_step-IsState s b h)

utf8_run-invalid : (bs : List ℕ) → utf8_run invalid bs ≡ invalid
unfolding utf8_run
utf8_run-invalid [] = refl
utf8_run-invalid (b ∷ bs) = utf8_run-invalid bs

-- Between two characters of a text the automaton is in its start state.
start_before_lead :
    (s : Utf8State) (b : ℕ) (bs : List ℕ)
    → IsState s
    → is_continuation b ≡ false
    → is_start (utf8_run s (b ∷ bs)) ≡ true
    → is_start s ≡ true
unfolding utf8_run
start_before_lead start b bs h c e = refl
start_before_lead (expect n lo hi) b bs h c e =
    let (low, high) = h.range in
    let outside : (leb lo b && leb b hi) ≡ false = ground arith in
    let dead : is_start (utf8_run invalid bs) ≡ true = rw outside at e in cc (utf8_run-invalid bs)
start_before_lead invalid b bs h c e = cc (utf8_run-invalid bs)

drop-at :
    (xs : List ℕ) (n b : ℕ) → get_elem? xs n ≡ some b → (rest : List ℕ) × (drop n xs ≡ b ∷ rest)
drop-at [] n b e = cc
drop-at (x ∷ xs) zero b e = (xs, cc)
drop-at (x ∷ xs) (suc n) b e = drop-at xs n b e

not_continuation : (b : ℕ) → not (is_continuation b) ≡ true → is_continuation b ≡ false
not_continuation b h = ground arith

unzero : (n : ℕ) (b : Bool) → 0 < n → (n == 0 || b) ≡ true → b ≡ true
unzero n b h e = ground arith

-- The prefix of a valid text before a character boundary is valid.
pub is_utf8-take :
    (text : List ℕ) (n : ℕ)
    → is_utf8 text ≡ true
    → n ≤ length text
    → is_char_boundary text n ≡ true
    → is_utf8 (take n text) ≡ true
unfolding is_utf8 is_char_boundary
is_utf8-take text zero valid h boundary = refl
is_utf8-take text (suc n) valid h boundary =
    let inner : boundary_at (suc n) (length text) (get_elem? text (suc n)) ≡ true =
      (unzero (suc n) _ (omega arith) boundary) in
    elim (Option-cases (get_elem? text (suc n))) [
      | inl e ↦
          let whole : (suc n == length text) ≡ true = rw e at inner in
          rw (take-all (suc n) text (ground arith)) valid
      | inr (b, e) ↦
          let (rest, d) = drop-at text (suc n) b e in
          let split : is_start (utf8_run (utf8_run start (take (suc n) text)) (b ∷ rest)) ≡ true =
            (rw
              (
                ← utf8_run-append start (take (suc n) text) (b ∷ rest),
                ← d,
                take-append-drop (suc n) text,
              )
              valid) in
          start_before_lead _ b rest (utf8_run-IsState start (take (suc n) text) start-IsState)
            (not_continuation b (rw e at inner)) split
    ]

back_to_boundary_bounds :
    (text : List ℕ) (n : ℕ)
    → (back_to_boundary text n ≤ n) × (is_char_boundary text (back_to_boundary text n) ≡ true)
unfolding back_to_boundary
back_to_boundary_bounds text zero = (omega arith, unfold is_char_boundary in refl)
back_to_boundary_bounds text (suc n) = elim (Bool-cases (is_char_boundary text (suc n))) [
  | inl e ↦ rw e (omega arith, e)
  | inr e ↦ rw e (let (a, b) = back_to_boundary_bounds text n in (omega arith, b))
]

get_elem?-end : (xs : List ℕ) → get_elem? xs (length xs) ≡ none
get_elem?-end [] = refl
get_elem?-end (x ∷ xs) = get_elem?-end xs

boundary_at_end : (text : List ℕ) → is_char_boundary text (length text) ≡ true
unfolding is_char_boundary
boundary_at_end text = rw (get_elem?-end text) (ground arith)

normalized_machine_name_len_short :
    (name : List ℕ)
    → length name ≤ auth_sys_machine_name_max
    → normalized_machine_name_len name ≡ length name
unfolding normalized_machine_name_len
normalized_machine_name_len_short name h = rw (le→leb _ _ h)

normalized_machine_name_len_long :
    (name : List ℕ)
    → leb (length name) auth_sys_machine_name_max ≡ false
    → normalized_machine_name_len name ≡ back_to_boundary name auth_sys_machine_name_max
unfolding normalized_machine_name_len
normalized_machine_name_len_long name h = rw h

normalized_machine_name_len_bounds :
    (name : List ℕ)
    → (normalized_machine_name_len name ≤ auth_sys_machine_name_max)
      × (normalized_machine_name_len name ≤ length name)
      × (is_char_boundary name (normalized_machine_name_len name) ≡ true)
normalized_machine_name_len_bounds name =
    elim (Bool-cases (leb (length name) auth_sys_machine_name_max)) [
      | inl h ↦
          let short = leb→le _ _ h in
          rw (normalized_machine_name_len_short name short)
            (short, omega arith, boundary_at_end name)
      | inr h ↦
          let (a, b) = back_to_boundary_bounds name auth_sys_machine_name_max in
          let long : auth_sys_machine_name_max < length name = ground arith in
          rw (normalized_machine_name_len_long name h) (a, omega arith, b)
    ]

-- A machine name in valid UTF-8, of any length, is cut to at most 255 bytes, and stays valid UTF-8.
pub normalize_machine_name-valid :
    (name : List ℕ)
    → is_utf8 name ≡ true
    → (length (normalize_machine_name name) ≤ auth_sys_machine_name_max)
      × (is_utf8 (normalize_machine_name name) ≡ true)
unfolding normalize_machine_name
normalize_machine_name-valid name valid =
    let (a, b, c) = normalized_machine_name_len_bounds name in
    (
      omega (arith, length-take (normalized_machine_name_len name) name),
      is_utf8-take name _ valid b c,
    )

-- A boundary is no index that the test refuses.
ne_of_test :
    (text : List ℕ) (n m : ℕ)
    → n ≤ suc m
    → is_char_boundary text n ≡ true
    → is_char_boundary text (suc m) ≡ false
    → n ≤ m
ne_of_test text n m h b e = grind arith

back_to_boundary-longest :
    (text : List ℕ) (m n : ℕ) → n ≤ m → is_char_boundary text n ≡ true → n ≤ back_to_boundary text m
unfolding back_to_boundary
back_to_boundary-longest text zero n h b = h
back_to_boundary-longest text (suc m) n h b = elim (Bool-cases (is_char_boundary text (suc m))) [
  | inl e ↦ rw e h
  | inr e ↦ rw e (back_to_boundary-longest text m n (ne_of_test text n m h b e) b)
]

-- No longer cut would do: every character boundary within the limit is kept.
pub normalized_machine_name_len-longest :
    (name : List ℕ) (n : ℕ)
    → n ≤ auth_sys_machine_name_max
    → n ≤ length name
    → is_char_boundary name n ≡ true
    → n ≤ normalized_machine_name_len name
normalized_machine_name_len-longest name n h k b =
    elim (Bool-cases (leb (length name) auth_sys_machine_name_max)) [
      | inl e ↦ rw (normalized_machine_name_len_short name (leb→le _ _ e)) k
      | inr e ↦
          rw (normalized_machine_name_len_long name e)
            (back_to_boundary-longest name auth_sys_machine_name_max n h b)
    ]
