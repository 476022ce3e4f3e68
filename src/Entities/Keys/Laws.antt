-- ===== src/Entities/Keys/Laws.antt =====
-- When two session keys render alike (MemoryKey.String in internal/domain/entities/pulse.go).
use Prim.Native.Char.{Char, code}
use text.Mathlib.TextLemmas.{cons-append, nil-append, head-eq_of_cons-eq, tail-eq_of_cons-eq}
use eywa.Prelude.{◌≡◌, refl, sym, ap, ◌∙◌, Bool, true, not, ◌&&◌, String, concat, ◌==◌, arith}
use eywa.Entities.Keys.{MemoryKey, colon_pair, memory_string}

-- The text has no ':'.
abbrev pub no_colon : String → Bool
no_colon String.[] = true
no_colon (String.◌∷◌ c s) = not (code c == b':') && no_colon s

colon_pair-nil : (u : String) → colon_pair String.[] u ≡ String.◌∷◌ ":" u
colon_pair-nil u = nil-append (concat ":" u) ∙ rw cons-append (rw nil-append)

colon_pair-cons :
    (c : Char) (s u : String) → colon_pair (String.◌∷◌ c s) u ≡ String.◌∷◌ c (colon_pair s u)
colon_pair-cons c s u = simp cons-append

colon_pair-inj :
    (s t u v : String)
    → no_colon s ≡ true
    → no_colon t ≡ true
    → colon_pair s u ≡ colon_pair t v
    → (s ≡ t) × (u ≡ v)
colon_pair-inj String.[] String.[] u v hs ht e =
    (refl, tail-eq_of_cons-eq (sym (colon_pair-nil u) ∙ e ∙ colon_pair-nil v))
colon_pair-inj String.[] (String.◌∷◌ d t) u v hs ht e =
    let same = head-eq_of_cons-eq (sym (colon_pair-nil u) ∙ e ∙ colon_pair-cons d t v) in
    cc (ap (λ (c : Char). not (code c == b':') && no_colon t) same)
colon_pair-inj (String.◌∷◌ c s) String.[] u v hs ht e =
    let same = head-eq_of_cons-eq (sym (colon_pair-nil v) ∙ sym e ∙ colon_pair-cons c s u) in
    cc (ap (λ (c : Char). not (code c == b':') && no_colon s) same)
colon_pair-inj (String.◌∷◌ c s) (String.◌∷◌ d t) u v hs ht e =
    let p = sym (colon_pair-cons c s u) ∙ e ∙ colon_pair-cons d t v in
    let (same, rest) =
      colon_pair-inj s t u v (ground arith) (ground arith) (tail-eq_of_cons-eq p) in
    (cc (head-eq_of_cons-eq p), rest)

-- Two session keys whose channels have no ':' render to the same text only if they are equal, so
-- they never share a session.
pub memory_string-inj :
    (j k : MemoryKey)
    → no_colon j.channel ≡ true
    → no_colon k.channel ≡ true
    → memory_string j ≡ memory_string k
    → j ≡ k
unfolding memory_string
memory_string-inj j k hj hk e =
    let (p, q) = colon_pair-inj j.channel k.channel j.user k.user hj hk e in
    λ i. record { channel = p i; user = q i }
