-- ===== src/Service/Auth/Email.antt =====
-- `emailPattern` of internal/service/auth_service.go, `^[^@\s]+@[^@\s]+\.[^@\s]+$`, as a scan, and
-- the pattern itself as a predicate.
use testovoe_bazis.Common.{
  ℕ, ◌||◌, ◌&&◌, not, Bool, true, false, ◌≡◌, ◌↔◌, refl, ap, ◌∙◌, inl, inr, [], ◌∷◌, ◌++◌, arith,
  nat_eq, Text, ◌==◌, if◌then◌else◌, All, Bool-cases,
}

-- `[^@\s]`; `\s` is one of tab, newline, form feed, carriage return and space.
unfoldable pub address_char : ℕ → Bool
address_char c = not (c == b'@' || (c == 9 || (c == 10 || (c == 12 || (c == 13 || c == 32)))))

-- `[^@\s]*` and `[^@\s]+`, to the end.
run : Text → Bool
run [] = true
run (c ∷ s) = address_char c && run s

run_plus : Text → Bool
run_plus [] = false
run_plus (c ∷ s) = address_char c && run s

-- The host behind its first character: a dot is still to come, with something behind it.
host_rest : Text → Bool
host_rest [] = false
host_rest (c ∷ s) = address_char c && (c == b'.' && run_plus s || host_rest s)

host : Text → Bool
host [] = false
host (c ∷ s) = address_char c && host_rest s

-- The address behind its first character.
local_rest : Text → Bool
local_rest [] = false
local_rest (c ∷ s) = if c == b'@' then host s else address_char c && local_rest s

unfoldable pub matches_email : Text → Bool
unfolding run run_plus host_rest host local_rest address_char
matches_email [] = false
matches_email (c ∷ s) = address_char c && local_rest s

abbrev pub AddressChars : Text → Type 0
AddressChars = All (λ c. address_char c ≡ true)

-- The three runs of an address, each with its first character.
pub record IsEmail (s : Text) : Type 0 where
  pub local_head : ℕ
  pub local_tail : Text
  pub host_head : ℕ
  pub host_tail : Text
  pub domain_head : ℕ
  pub domain_tail : Text
  pub parts :
      s
      ≡ (local_head ∷ local_tail)
        ++ (b'@' ∷ (host_head ∷ host_tail) ++ (b'.' ∷ domain_head ∷ domain_tail))
  pub local_chars : AddressChars (local_head ∷ local_tail)
  pub host_chars : AddressChars (host_head ∷ host_tail)
  pub domain_chars : AddressChars (domain_head ∷ domain_tail)

run_iff : (s : Text) → (run s ≡ true) ↔ AddressChars s
unfolding run
run_iff [] = (λ _. tt, λ _. refl)
run_iff (c ∷ s) = ground (arith, run_iff s)

-- What `host_rest` finds.
HostRest : Text → Type 0
HostRest s =
    (h : Text) × (d : ℕ) × (ds : Text) × (s ≡ h ++ (b'.' ∷ d ∷ ds))
    × AddressChars h
    × AddressChars (d ∷ ds)

HostRest-here : (c : ℕ) (s : Text) → c ≡ b'.' → run_plus s ≡ true → HostRest (c ∷ s)
unfolding HostRest run_plus
HostRest-here c [] dot h = cc
HostRest-here c (d ∷ ds) dot h = ([], d, ds, ground arith, tt, ground (arith, run_iff ds))

host_rest_sound : (s : Text) → host_rest s ≡ true → HostRest s
unfolding host_rest HostRest
host_rest_sound [] h = cc
host_rest_sound (c ∷ s) h = elim (Bool-cases (c == b'.' && run_plus s)) [
  | inl dot ↦ HostRest-here c s (ground arith) (ground arith)
  | inr later ↦
      let (hs, d, ds, e, a, b) = host_rest_sound s (ground arith) in
      (c ∷ hs, d, ds, ap (λ t. c ∷ t) e, (ground arith, a), b)
]

host_rest_complete :
    (h : Text) (d : ℕ) (ds : Text)
    → AddressChars h
    → AddressChars (d ∷ ds)
    → host_rest (h ++ (b'.' ∷ d ∷ ds)) ≡ true
unfolding host_rest run_plus address_char
host_rest_complete [] d ds _ b = ground (arith, run_iff ds)
host_rest_complete (c ∷ h) d ds (p, a) b = ground (arith, host_rest_complete h d ds a b)

-- What `local_rest` finds: the rest of the local part, then a host.
LocalRest : Text → Type 0
LocalRest s =
    (l : Text) × (c : ℕ) × (h : Text) × (s ≡ l ++ (b'@' ∷ c ∷ h))
    × AddressChars l
    × (address_char c ≡ true)
    × HostRest h

LocalRest-here : (c : ℕ) (s : Text) → c ≡ b'@' → host s ≡ true → LocalRest (c ∷ s)
unfolding LocalRest host
LocalRest-here c [] at_sign h = cc
LocalRest-here c (d ∷ s) at_sign h =
    ([], d, s, ground arith, tt, ground arith, host_rest_sound s (ground arith))

local_rest_sound : (s : Text) → local_rest s ≡ true → LocalRest s
unfolding local_rest LocalRest
local_rest_sound [] h = cc
local_rest_sound (c ∷ s) h = elim (Bool-cases (c == b'@')) [
  | inl at_sign ↦ LocalRest-here c s (ground arith) (ground arith)
  | inr other ↦
      let (l, d, hs, e, a, p, r) = local_rest_sound s (ground arith) in
      (c ∷ l, d, hs, ap (λ t. c ∷ t) e, (ground arith, a), p, r)
]

not-at_sign : (c : ℕ) → address_char c ≡ true → (c == b'@') ≡ false
unfolding address_char
not-at_sign c h = ground arith

local_rest_complete :
    (l : Text) (s : Text) → AddressChars l → host s ≡ true → local_rest (l ++ (b'@' ∷ s)) ≡ true
unfolding local_rest
local_rest_complete [] s _ h = h
local_rest_complete (c ∷ l) s (p, a) h = rw (not-at_sign c p, p) (local_rest_complete l s a h)

matches_email_sound : (s : Text) → matches_email s ≡ true → IsEmail s
unfolding matches_email HostRest LocalRest
matches_email_sound [] h = cc
matches_email_sound (c ∷ s) h =
    let (l, d, hs, e, a, p, host_part) = local_rest_sound s (ground arith) in
    let (ht, m, ms, e', a', b) = host_part in
    record {
      local_head = c;
      local_tail = l;
      host_head = d;
      host_tail = ht;
      domain_head = m;
      domain_tail = ms;
      parts = ap (λ t. c ∷ t) (e ∙ ap (λ t. l ++ (b'@' ∷ d ∷ t)) e');
      local_chars = (ground arith, a);
      host_chars = (p, a');
      domain_chars = b;
    }

matches_email_complete : (s : Text) → IsEmail s → matches_email s ≡ true
unfolding matches_email host
matches_email_complete s m = rw m.parts (
    rw (m.local_chars.0) (
      local_rest_complete m.local_tail _ m.local_chars.1 (
        rw m.host_chars.0 (
          host_rest_complete m.host_tail m.domain_head m.domain_tail m.host_chars.1
            m.domain_chars))))

-- The scan accepts exactly the texts of the form local@host.domain, each of the three a run of one
-- or more characters that are neither `@` nor white space.
pub matches_email_iff : (s : Text) → (matches_email s ≡ true) ↔ IsEmail s
matches_email_iff s = (matches_email_sound s, matches_email_complete s)
