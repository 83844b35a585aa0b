-- ===== src/Store/Cache/Entries.antt =====
-- What GET finds after SET and INCR, under the same key and under others.
use testovoe_bazis.Common.{
  ℕ, ◌≡◌, ◌≢◌, refl, inl, inr, none, some, List, [], ◌∷◌, arith, Text, text_eq, text_beq,
  text_beq_iff, text_beq_refl, if◌then◌else◌, Bool-cases,
}
use testovoe_bazis.Store.Cache.{Entry, find_key, put_key, is_live}

pub find_key-put_key :
    (e : Entry) (clock : ℕ) (es : List Entry)
    → find_key e.key clock (put_key e es) ≡ (if is_live clock e.expires then some e.value else none)
unfolding find_key put_key
find_key-put_key e clock [] = rw (text_beq_refl e.key) refl
find_key-put_key e clock (f ∷ fs) = elim (Bool-cases (text_beq f.key e.key)) [
  | inl same ↦ simp (same, text_beq_refl)
  | inr other ↦ simp (other, find_key-put_key e clock fs)
]

pub find_key-put_key_other :
    (k : Text) (e : Entry) (clock : ℕ) (es : List Entry)
    → e.key ≢ k
    → find_key k clock (put_key e es) ≡ find_key k clock es
unfolding find_key put_key
find_key-put_key_other k e clock [] h = ground (arith, text_beq_iff e.key k)
find_key-put_key_other k e clock (f ∷ fs) h = ground (
  arith,
  text_beq_iff e.key k,
  text_beq_iff f.key e.key,
  text_beq_iff f.key k,
  find_key-put_key_other k e clock fs h,
)
