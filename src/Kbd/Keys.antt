-- ===== src/Kbd/Keys.antt =====
-- What a key sends.
use esp32_p4_linux_hyperviso.Base.{
  ℕ, zero, suc, ◌+◌, ◌-◌, ◌≤◌, ◌<◌, ◌≡◌, refl, sym, ap, ◌∙◌, Bool, true, ◌&&◌, ◌||◌, Option, none,
  some, List, [], ◌∷◌, get_or, length, has, ltb, leb, ◌==◌, arith, if_keeps, if◌then◌else◌,
  Option-cases, Bool-cases, inl, inr, Ensures,
}
use esp32_p4_linux_hyperviso.Base.Finite.{holds_below, holds_below_sound}
use native.Mathlib.Decide.{dec_lt}
use esp32_p4_linux_hyperviso.Kbd.{Kbd, kbd_push, kbd_push_str}
use esp32_p4_linux_hyperviso.Kbd.Usage.{
  mod_ctrl, mod_shift, mod_alt, usage_max, usage_plain, usage_shift, usage_escape, control_of,
  push_character, emit_usage,
}

-- Seven-bit bytes only.
abbrev pub ascii : List ℕ → Bool
ascii [] = true
ascii (c ∷ s) = ltb c 128 && ascii s

-- What one key press may send: at most five bytes, all of seven bits.
pub record IsTypeable (s : List ℕ) : Type 0 where
  pub short : length s ≤ 5
  pub seven_bits : ascii s ≡ true

get_or-ascii : (s : List ℕ) (i : ℕ) → ascii s ≡ true → get_or s i 0 < 128
get_or-ascii [] i h = omega arith
get_or-ascii (c ∷ s) zero h = ground arith
get_or-ascii (c ∷ s) (suc i) h = get_or-ascii s i (ground arith)

is_typeable : Option (List ℕ) → Bool
is_typeable none = true
is_typeable (some s) = leb (length s) 5 && ascii s

no_escape : (usage : ℕ) → 0x53 ≤ usage → usage_escape usage ≡ none
unfolding usage_escape
no_escape usage h = ground arith

letters_escape : (usage : ℕ) → usage < 0x3a → usage_escape usage ≡ none
unfolding usage_escape
letters_escape usage h = ground arith

escapes : (usage : ℕ) → is_typeable (usage_escape usage) ≡ true
unfolding is_typeable usage_escape holds_below
escapes usage = elim (dec_lt usage 0x53) [
  | yes l ↦ holds_below_sound 0x53 (λ u. is_typeable (usage_escape u)) usage refl l
  | no g ↦ rw (no_escape usage (omega arith)) refl
]

usage_escape-IsTypeable : (usage : ℕ) → Ensures IsTypeable (usage_escape usage)
unfolding is_typeable
usage_escape-IsTypeable usage = record {
  law = λ s e.
      let t : (leb (length s) 5 && ascii s) ≡ true = ap is_typeable (sym e) ∙ escapes usage in
      record { short = ground (arith, t); seven_bits = ground (arith, t) };
}

control_of-lt : (base : ℕ) → Ensures (λ (c : ℕ). c < 128) (control_of base)
unfolding control_of
control_of-lt base = record { law = λ c e. ground arith }

plain_lt : (usage : ℕ) → get_or usage_plain usage 0 < 128
unfolding usage_plain
plain_lt usage = get_or-ascii usage_plain usage refl

shift_lt : (usage : ℕ) → get_or usage_shift usage 0 < 128
unfolding usage_shift
shift_lt usage = get_or-ascii usage_shift usage refl

-- The bytes a key press pushes, whatever the ring.
pub record Sends (usage mods : ℕ) (s : List ℕ) : Type 0 where
  pub typeable : IsTypeable s
  pub pushed : (k : Kbd) → emit_usage usage mods k ≡ kbd_push_str k s

push_character-Sends :
    (c mods : ℕ)
    → c < 128
    → (s : List ℕ) × IsTypeable s × ((k : Kbd) → push_character c mods k ≡ kbd_push_str k s)
unfolding push_character kbd_push_str
push_character-Sends c mods h = elim (Bool-cases (has mods mod_alt)) [
  | inl e ↦ (
    0x1b ∷ c ∷ [],
    record { short = omega arith; seven_bits = ground arith },
    λ k. rw (push_character, e) refl,
  )
  | inr e ↦ (
    c ∷ [],
    record { short = omega arith; seven_bits = ground arith },
    λ k. rw (push_character, e) refl,
  )
]

character :
    (usage mods c : ℕ)
    → c < 128
    → (mods' : ℕ) → ((k : Kbd) → emit_usage usage mods k ≡ push_character c mods' k)
    → (s : List ℕ) × Sends usage mods s
character usage mods c h mods' e =
    let (s, t, p) = push_character-Sends c mods' h in
    (s, record { typeable = t; pushed = λ k. e k ∙ p k })

nothing :
    (usage mods : ℕ) → ((k : Kbd) → emit_usage usage mods k ≡ k) → (s : List ℕ) × Sends usage mods s
unfolding kbd_push_str
nothing usage mods e =
    ([], record { typeable = record { short = omega arith; seven_bits = refl }; pushed = e })

-- Whatever the usage and the modifiers, a key press pushes a fixed string of at most five
-- seven-bit bytes, in order and whatever the ring holds.
pub emit_usage-Sends : (usage mods : ℕ) → (s : List ℕ) × Sends usage mods s
unfolding emit_usage kbd_push_str
emit_usage-Sends usage mods = elim (Option-cases (usage_escape usage)) [
  | inr (s, e) ↦ (
    s,
    record {
      typeable = (usage_escape-IsTypeable usage).law s e;
      pushed = λ k. rw (emit_usage, e) refl;
    },
  )
  | inl e ↦
      let c =
        if has mods mod_shift then get_or usage_shift usage 0 else get_or usage_plain usage 0 in
      let base = get_or usage_plain usage 0 in
      let small : c < 128 =
        if_keeps (λ (n : ℕ). n < 128) (has mods mod_shift) (shift_lt usage) (plain_lt usage) in
      elim (Bool-cases (leb usage_max usage)) [
        | inl f ↦ nothing usage mods (λ k. rw (emit_usage, e, f) refl)
        | inr f ↦ elim (Bool-cases (c == 0)) [
          | inl z ↦ nothing usage mods (λ k. rw (emit_usage, e, f, z) refl)
          | inr z ↦ elim (Bool-cases (has mods mod_ctrl)) [
            | inr p ↦ character usage mods c small mods (λ k. rw (emit_usage, e, f, z, p) refl)
            | inl p ↦ elim (Option-cases (control_of base)) [
              | inl q ↦ character usage mods c small mods (λ k. rw (emit_usage, e, f, z, p, q) refl)
              | inr (d, q) ↦ (
                d ∷ [],
                record {
                  typeable = record {
                    short = omega arith;
                    seven_bits = let l = (control_of-lt base).law d q in ground (arith, l);
                  };
                  pushed = λ k. rw (emit_usage, e, f, z, p, q) refl;
                },
              )
            ]
          ]
        ]
      ]
]

-- The letters' rows of the two tables.
letter_rows :
    (usage : ℕ)
    → 0x04 ≤ usage
    → usage ≤ 0x1d
    → (get_or usage_plain usage 0 ≡ usage + 0x5d) × (get_or usage_shift usage 0 ≡ usage + 0x3d)
unfolding usage_plain usage_shift holds_below
letter_rows usage l u =
    let test : ℕ → Bool =
      λ n. ltb n 4 || get_or usage_plain n 0 == n + 0x5d && get_or usage_shift n 0 == n + 0x3d in
    let e = holds_below_sound 0x1e test usage refl (omega arith) in (ground arith, ground arith)

-- A letter with ctrl held sends its control character, from 1 for A to 26 for Z, whether or not shift
-- and alt are held.
pub emit_usage-control :
    (usage mods : ℕ) (k : Kbd)
    → 0x04 ≤ usage
    → usage ≤ 0x1d
    → has mods mod_ctrl ≡ true
    → emit_usage usage mods k ≡ kbd_push k (usage - 3)
unfolding emit_usage control_of
emit_usage-control usage mods k l u h =
    let (plain, shift) = letter_rows usage l u in
    rw (emit_usage, letters_escape usage (omega arith), h, plain, shift) (ground arith)
