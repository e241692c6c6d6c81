-- ===== src/Telemetry/Recorded.antt =====
-- The phases that a recorder takes: in the order in which they began, one after the other.
use marstack_container.Prelude.{
  ℕ, ◌≤◌, ◌≡◌, refl, sym, ap, ◌∙◌, Option, none, some, List, [], ◌∷◌, ◌++◌, map, arith,
  append_assoc, append-nil,
}
use mathlib.Core.List.{map-append}
use marstack_container.Std.Text.{Text}
use marstack_container.Sync.{Phase}
use marstack_container.Telemetry.{Recorder, new, begin, end, end_phase, take}

-- A use of a recorder, with the times that it reads.
pub data Call : Type 0 where
  begins : Text → ℕ → ℕ → Call
  ends : ℕ → Call

abbrev pub call : Call → Recorder → Recorder
call (begins name ended started) r = begin name ended started r
call (ends now) r = end now r

unfoldable pub call_all : List Call → Recorder → Recorder
call_all [] r = r
call_all (c ∷ cs) r = call_all cs (call c r)

-- The times that are read never go back, from one time to another.
abbrev pub Monotone : ℕ → List Call → ℕ → Type 0
Monotone a [] b = a ≤ b
Monotone a (begins name ended started ∷ cs) b =
    (a ≤ ended) × (ended ≤ started) × Monotone started cs b
Monotone a (ends now ∷ cs) b = (a ≤ now) × Monotone now cs b

-- The names that were begun.
abbrev pub begun : List Call → List Text
begun [] = []
begun (begins name ended started ∷ cs) = name ∷ begun cs
begun (ends now ∷ cs) = begun cs

-- Phases one after the other between two times: each starts no earlier than the last ended, and
-- ends no earlier than it started.
abbrev pub Successive : ℕ → List Phase → ℕ → Type 0
Successive a [] b = a ≤ b
Successive a (p ∷ ps) b = (a ≤ p.start_us) × (p.start_us ≤ p.end_us) × Successive p.end_us ps b

-- The invariant of a recorder at a time: the open phase, ended then, is successive too.
abbrev pub IsOrdered : ℕ → Recorder → Type 0
IsOrdered now r = Successive 0 (r.recorded ++ end_phase now r.current) now

Successive-append :
    (a b c : ℕ) (ps qs : List Phase)
    → Successive a ps b
    → Successive b qs c
    → Successive a (ps ++ qs) c
Successive-append a b c [] [] h k = omega arith
Successive-append a b c [] (q ∷ qs) h k = (omega arith, k.1, k.2)
Successive-append a b c (p ∷ ps) qs h k = (h.0, h.1, Successive-append p.end_us b c ps qs h.2 k)

-- A later end of the open phase.
later-Successive :
    (a now next : ℕ) (ps : List Phase) (o : Option (Text × ℕ))
    → now ≤ next
    → Successive a (ps ++ end_phase now o) now
    → Successive a (ps ++ end_phase next o) next
unfolding end_phase
later-Successive a now next [] none h k = omega arith
later-Successive a now next [] (some (name, start)) h k = omega arith
later-Successive a now next (p ∷ ps) o h k =
    (k.0, k.1, later-Successive p.end_us now next ps o h k.2)

begin-IsOrdered :
    (a ended started : ℕ) (name : Text) (r : Recorder)
    → a ≤ ended
    → ended ≤ started
    → IsOrdered a r
    → IsOrdered started (begin name ended started r)
unfolding begin
begin-IsOrdered a ended started name r h k ordered =
    Successive-append 0 ended started (r.recorded ++ end_phase ended r.current) _
      (later-Successive 0 a ended r.recorded r.current h ordered) (omega arith)

end-IsOrdered : (a now : ℕ) (r : Recorder) → a ≤ now → IsOrdered a r → IsOrdered now (end now r)
unfolding end
end-IsOrdered a now r h ordered =
    rw (append-nil (r.recorded ++ end_phase now r.current))
      (later-Successive 0 a now r.recorded r.current h ordered)

call_all-IsOrdered :
    (cs : List Call) (a b : ℕ) (r : Recorder)
    → Monotone a cs b
    → IsOrdered a r
    → IsOrdered b (call_all cs r)
unfolding call_all
call_all-IsOrdered [] a b r m ordered = later-Successive 0 a b r.recorded r.current m ordered
call_all-IsOrdered (begins name ended started ∷ cs) a b r (h, k, m) ordered =
    call_all-IsOrdered cs started b (begin name ended started r) m
      (begin-IsOrdered a ended started name r h k ordered)
call_all-IsOrdered (ends now ∷ cs) a b r (h, m) ordered =
    call_all-IsOrdered cs now b (end now r) m (end-IsOrdered a now r h ordered)

-- The names of the phases, the open one included.
abbrev pub names : ℕ → Recorder → List Text
names now r = map (λ (p : Phase). p.name) (r.recorded ++ end_phase now r.current)

names_at :
    (a b : ℕ) (ps : List Phase) (o : Option (Text × ℕ))
    → map (λ (p : Phase). p.name) (ps ++ end_phase a o)
      ≡ map (λ (p : Phase). p.name) (ps ++ end_phase b o)
unfolding end_phase
names_at a b [] none = refl
names_at a b [] (some (name, start)) = refl
names_at a b (p ∷ ps) o = λ i. p.name ∷ names_at a b ps o i

-- The names after one use.
names-call :
    (c : Call) (now at : ℕ) (r : Recorder) → names at (call c r) ≡ names now r ++ begun (c ∷ [])
unfolding begin end
names-call (begins name ended started) now at r =
    map-append (λ (p : Phase). p.name) (r.recorded ++ end_phase ended r.current) _
    ∙ ap (λ t. t ++ name ∷ []) (names_at ended now r.recorded r.current)
names-call (ends time) now at r =
    map-append (λ (p : Phase). p.name) (r.recorded ++ end_phase time r.current) []
    ∙ ap (λ t. t ++ []) (names_at time now r.recorded r.current)

begun-cons : (c : Call) (cs : List Call) → begun (c ∷ cs) ≡ begun (c ∷ []) ++ begun cs
begun-cons (begins name ended started) cs = refl
begun-cons (ends time) cs = refl

names-call_all :
    (cs : List Call) (now b : ℕ) (r : Recorder) → names b (call_all cs r) ≡ names now r ++ begun cs
unfolding call_all
names-call_all [] now b r = names_at b now r.recorded r.current ∙ sym (append-nil (names now r))
names-call_all (c ∷ cs) now b r =
    names-call_all cs now b (call c r)
    ∙ ap (λ t. t ++ begun cs) (names-call c now now r)
    ∙ append_assoc (names now r) (begun (c ∷ [])) (begun cs)
    ∙ ap (λ t. names now r ++ t) (sym (begun-cons c cs))

-- Whatever is begun and ended on a new recorder, at times that do not go back, the phases that are
-- taken have the names that were begun, in order; each starts no earlier than the last ended, ends
-- no earlier than it started, and none ends after the time they are taken.
pub take-Successive :
    (wall b : ℕ) (cs : List Call)
    → Monotone 0 cs b
    → Successive 0 (take b (call_all cs (new wall))).0 b
      × (map (λ (p : Phase). p.name) (take b (call_all cs (new wall))).0 ≡ begun cs)
unfolding take new
take-Successive wall b cs m =
    (call_all-IsOrdered cs 0 b (new wall) m (omega arith), names-call_all cs 0 b (new wall))
