-- ===== src/Polygon/Import/Returned.antt =====
-- What is known when a sequence of calls returned.
use judge_self.Common.{String, ◌≡◌, refl, ap, ◌∙◌, Option, none, some, eq_refl}
use judge_self.Common.Assoc.{Assoc, lookup, assign, lookup-assign}
use judge_self.Polygon.Xml.{Extracted, extracted, thrown}
use judge_self.Polygon.Disk.{World, Task, found, ◌>>=◌, continue}

-- The call returned the value and left the world.
abbrev pub Returns : {A : Type 0} → Task A → World → A → World → Type 0
Returns m w a w' = m w ≡ (w', extracted a)

pub extracted-inj : {A : Type 0} {a b : A} → extracted a ≡ extracted b → a ≡ b
extracted-inj h = cc

pub thrown-ne-extracted : {A : Type 0} {m : String} {a : A} → thrown m ≡ extracted a → ⊥
thrown-ne-extracted h = cc

continue-returned :
    {A B : Type 0} (p : World × Extracted A) (k : A → Task B) (w' : World) (b : B)
    → continue p k ≡ (w', extracted b)
    → (w : World) × (a : A) × (p ≡ (w, extracted a)) × Returns (k a) w b w'
continue-returned (w, extracted a) k w' b h = (w, a, refl, h)
continue-returned (w, thrown m) k w' b h = absurd (thrown-ne-extracted (ap (λ p. p.1) h))

-- Both calls of a sequence returned.
pub bind-returned :
    {A B : Type 0} (m : Task A) (k : A → Task B) (w w' : World) (b : B)
    → Returns (m >>= k) w b w'
    → (v : World) × (a : A) × Returns m w a v × Returns (k a) v b w'
unfolding ◌>>=◌
bind-returned m k w w' b h = continue-returned (m w) k w' b h

pub found-returned :
    {A : Type 0} (m : String) (o : Option A) (w w' : World) (a : A)
    → Returns (found m o) w a w'
    → (w ≡ w') × (o ≡ some a)
found-returned m none w w' a h = absurd (thrown-ne-extracted (ap (λ p. p.1) h))
found-returned m (some b) w w' a h = (ap (λ p. p.0) h, ap some (extracted-inj (ap (λ p. p.1) h)))

pub lookup-assign_self :
    {V : Type 0} (k : String) (v : V) (m : Assoc V) → lookup k (assign k v m) ≡ some v
lookup-assign_self k v m = lookup-assign k k v m ∙ (rw (eq_refl k) refl)
