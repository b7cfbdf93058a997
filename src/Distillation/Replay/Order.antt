-- ===== src/Distillation/Replay/Order.antt =====
-- The order and the contract of a chunk list under concatenation and eviction.
use py_rl_trainer.Prelude.{ℕ, zero, suc, ◌≤◌, List, [], ◌∷◌, ◌++◌, arith, drop}
use py_rl_trainer.Distillation.Transport.{TeacherChunk, TeacherContract}
use py_rl_trainer.Distillation.Replay.Validation.{Ascends, AllContract}

Ascends-lower :
    {p q : ℕ} (cursor : ℕ) (xs : List TeacherChunk)
    → p ≤ q
    → Ascends q cursor xs
    → Ascends p cursor xs
Ascends-lower cursor [] le h = omega arith
Ascends-lower cursor (x ∷ xs) le h = (omega arith, h.1)

pub Ascends-append :
    (p c next : ℕ) (xs ys : List TeacherChunk)
    → Ascends p c xs
    → Ascends c next ys
    → Ascends p next (xs ++ ys)
Ascends-append p c next [] ys h k = Ascends-lower next ys h k
Ascends-append p c next (x ∷ xs) ys h k = (h.0, Ascends-append x.sequence c next xs ys h.1 k)

pub Ascends-drop : (n p c : ℕ) (xs : List TeacherChunk) → Ascends p c xs → Ascends p c (drop n xs)
Ascends-drop zero p c xs h = h
Ascends-drop (suc n) p c [] h = h
Ascends-drop (suc n) p c (x ∷ xs) h = Ascends-drop n p c xs (Ascends-lower c xs (omega arith) h.1)

pub AllContract-append :
    (k : TeacherContract) (xs ys : List TeacherChunk)
    → AllContract k xs
    → AllContract k ys
    → AllContract k (xs ++ ys)
AllContract-append k [] ys h l = l
AllContract-append k (x ∷ xs) ys h l = (h.0, AllContract-append k xs ys h.1 l)

pub AllContract-drop :
    (n : ℕ) (k : TeacherContract) (xs : List TeacherChunk)
    → AllContract k xs
    → AllContract k (drop n xs)
AllContract-drop zero k xs h = h
AllContract-drop (suc n) k [] h = tt
AllContract-drop (suc n) k (x ∷ xs) h = AllContract-drop n k xs h.1

pub Ascends-le : (p c : ℕ) (xs : List TeacherChunk) → Ascends p c xs → p ≤ c
Ascends-le p c [] h = h
Ascends-le p c (x ∷ xs) h = omega (arith, Ascends-le x.sequence c xs h.1)
