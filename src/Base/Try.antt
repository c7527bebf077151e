-- ===== src/Base/Try.antt =====
-- The operator `?` on results, for code that computes and writes nothing.
use pranklin.Base.{Result, ok, err, ◌≡◌, refl}

-- `map` on a result.
abbrev pub map_ok : {A B : Type 0} → (A → B) → Result A → Result B
map_ok g r = elim r [ ok x ↦ ok (g x) | err why ↦ err why ]

-- An early return on an error.
abbrev pub ◌>>=◌ : {A B : Type 0} → Result A → (A → Result B) → Result B
r >>= next = elim r [ ok x ↦ next x | err why ↦ err why ]

abbrev pub ◌>>◌ : {B : Type 0} → Result (Unit {0}) → Result B → Result B
check >> after = elim check [ ok done ↦ after | err why ↦ err why ]

infixl 5 ◌>>=◌ ◌>>◌
-- What a chain with a value went through.
pub >>=-eq-ok :
    {A B : Type 0} (r : Result A) (next : A → Result B) {y : B}
    → r >>= next ≡ ok y
    → (x : A) × (r ≡ ok x) × (next x ≡ ok y)
>>=-eq-ok (err why) next gave = cc
>>=-eq-ok (ok x) next gave = (x, refl, gave)
