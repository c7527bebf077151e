-- ===== src/Events/Positions.antt =====
-- The positions in the log of the events that pass a test, and what is read there.
use pranklin.Base.{
  ℕ, suc, ◌+◌, ◌≡◌, Bool, some, List, [], ◌∷◌, ◌++◌, length, keep, if◌then◌else◌, arith, refl, ◌∙◌,
  ap,
}
use mathlib.Core.List.{append_assoc}
use pranklin.Events.Defs.{DomainEvent, nth, read_all}

-- The positions, from `i` on, of the events that pass a test.
unfoldable pub positions : (DomainEvent → Bool) → ℕ → List DomainEvent → List ℕ
positions p i [] = []
positions p i (e ∷ es) = if p e then i ∷ positions p (suc i) es else positions p (suc i) es

pub positions-append :
    (p : DomainEvent → Bool) (i : ℕ) (es : List DomainEvent) (e : DomainEvent)
    → positions p i (es ++ e ∷ [])
      ≡ (if p e then positions p i es ++ (i + length es) ∷ [] else positions p i es)
unfolding positions
positions-append p i [] e = ground arith
positions-append p i (x ∷ es) e = ground (arith, positions-append p (suc i) es e)

nth-append :
    (front back : List DomainEvent) (e : DomainEvent)
    → nth (length front) (front ++ e ∷ back) ≡ some e
unfolding nth
nth-append [] back e = refl
nth-append (x ∷ front) back e = nth-append front back e

length-snoc : (es : List DomainEvent) (e : DomainEvent) → length (es ++ e ∷ []) ≡ suc (length es)
length-snoc [] e = refl
length-snoc (x ∷ es) e = ground (arith, length-snoc es e)

-- The events at the positions are those that pass the test, in order.
read_positions :
    (p : DomainEvent → Bool) (front back events : List DomainEvent) (i : ℕ)
    → length front ≡ i
    → front ++ back ≡ events
    → read_all events (positions p i back) ≡ some (keep p back)
unfolding positions read_all
read_positions p front [] events i at log = refl
read_positions p front (e ∷ back) events i at log =
    let rest =
      read_positions p (front ++ e ∷ []) back events (suc i) (length-snoc front e ∙ ap suc at)
        (append_assoc front (e ∷ []) back ∙ log) in
    ground (arith, rest, nth-append front back e, at, log)

pub read_all-positions :
    (p : DomainEvent → Bool) (events : List DomainEvent)
    → read_all events (positions p 0 events) ≡ some (keep p events)
read_all-positions p events = read_positions p [] events events 0 refl refl
