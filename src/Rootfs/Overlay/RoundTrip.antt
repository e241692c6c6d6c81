-- ===== src/Rootfs/Overlay/RoundTrip.antt =====
-- Escaping and splitting are inverse: the kernel, and this runtime, read the layers that were meant.
use marstack_container.Prelude.{
  ℕ, ◌≡◌, ◌≢◌, refl, ◌∙◌, map, sym, ap, append_assoc, append-nil, false, List, [], ◌∷◌, ◌++◌, arith,
  ◌==◌, if◌then◌else◌, is_empty, All,
}
use marstack_container.Std.Text.{Text, codes, join, contains}
use marstack_container.Error.{ok, traverse, ◌>>=◌, >>=-eq-ok}
use marstack_container.Rootfs.Overlay.{split_from, split_lowerdir, non_empty, escape_text, escape}

-- One character, escaped.
escaped_char : ℕ → Text
escaped_char c = if c == b'\\' then codes "\\\\" else if c == b':' then codes "\\:" else c ∷ []

escape_text-cons : (c : ℕ) (cs : Text) → escape_text (c ∷ cs) ≡ escaped_char c ++ escape_text cs
unfolding escape_text escaped_char
escape_text-cons c cs = ground arith

split_from-char :
    (current rest : Text) (c : ℕ)
    → split_from false current (escaped_char c ++ rest) ≡ split_from false (current ++ c ∷ []) rest
unfolding split_from escaped_char
split_from-char current rest c = ground arith

split_from-escape_text :
    (t current rest : Text)
    → split_from false current (escape_text t ++ rest) ≡ split_from false (current ++ t) rest
split_from-escape_text [] current rest = unfold escape_text in rw (append-nil current)
split_from-escape_text (c ∷ cs) current rest = rw (
  escape_text-cons c cs,
  append_assoc (escaped_char c) (escape_text cs) rest,
  split_from-char current (escape_text cs ++ rest) c,
  split_from-escape_text cs (current ++ c ∷ []) rest,
  append_assoc current (c ∷ []) cs,
)

split_from-end : (current : Text) → split_from false current [] ≡ current ∷ []
unfolding split_from
split_from-end current = refl

split_from-colon :
    (current rest : Text)
    → split_from false current (codes ":" ++ rest) ≡ current ∷ split_from false [] rest
unfolding split_from
split_from-colon current rest = refl

split_from-join :
    (t : Text) (ts : List Text)
    → split_from false [] (join (codes ":") (map escape_text (t ∷ ts))) ≡ t ∷ ts
unfolding join
split_from-join t [] =
    rw (sym (append-nil (escape_text t))) (split_from-escape_text t [] [] ∙ split_from-end t)
split_from-join t (u ∷ us) =
    split_from-escape_text t [] (codes ":" ++ join (codes ":") (map escape_text (u ∷ us)))
    ∙ split_from-colon t (join (codes ":") (map escape_text (u ∷ us)))
    ∙ ap (λ r. t ∷ r) (split_from-join u us)

non_empty-all : (ts : List Text) → All (λ t. is_empty t ≡ false) ts → non_empty ts ≡ ts
unfolding non_empty
non_empty-all [] h = refl
non_empty-all (t ∷ ts) h = ground (arith, non_empty-all ts h.1)

escape-eq-ok : (t e : Text) → escape t ≡ ok e → (e ≡ escape_text t) × (contains b',' t ≡ false)
unfolding escape
escape-eq-ok t e h = ground arith

traverse-escape : (ts es : List Text) → traverse escape ts ≡ ok es → es ≡ map escape_text ts
unfolding traverse
traverse-escape [] es h = ground arith
traverse-escape (t ∷ ts) es h =
    let (u, eu, h1) = >>=-eq-ok (escape t) (λ y. traverse escape ts >>= λ ys. ok (y ∷ ys)) h in
    let (us, eus, h2) = >>=-eq-ok (traverse escape ts) (λ ys. ok (u ∷ ys)) h1 in
    ground (arith, escape-eq-ok t u eu, traverse-escape ts us eus)

-- For a list of layers that is not empty and has no empty name, splitting the colon-separated
-- escaped layers gives the layers back, in order.
split_lowerdir-join :
    (lower escaped : List Text)
    → lower ≢ []
    → All (λ t. is_empty t ≡ false) lower
    → traverse escape lower ≡ ok escaped
    → split_lowerdir (join (codes ":") escaped) ≡ lower
unfolding split_lowerdir
split_lowerdir-join [] escaped ne h e = absurd (ne refl)
split_lowerdir-join (t ∷ ts) escaped ne h e =
    rw (traverse-escape (t ∷ ts) escaped e, split_from-join t ts) (non_empty-all (t ∷ ts) h)
