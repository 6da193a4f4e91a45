-- ===== src/Session/Queue.antt =====
-- The messages of a queue that can be processed one after the other.
use dtorch.Base.{
  ℕ, ◌≡◌, refl, ap, subst, inl, inr, true, false, List, [], ◌∷◌, ◌++◌, arith, ◌==◌, Bool-cases, All,
  true≢false,
}
use dtorch.Base.Keys.{Keys, insert, erase, insert_all, AllNew}
use dtorch.Runner.{addresses, IsOp}
use dtorch.Graph.{Message, add_operator, api_tensor_no_hold, set_graph_name, set_operand_name}
use dtorch.Session.{Live, after, pending, IsFresh}

abbrev pub Allowed : Message → Live → Type 0
Allowed (add_operator op) l = All (λ x. l.held x ≡ true) op.inputs × IsFresh l op × IsOp op
Allowed (api_tensor_no_hold x) l = l.held x ≡ true
Allowed (set_graph_name name) l = Unit
Allowed (set_operand_name x name) l = l.held x ≡ true

abbrev pub Allows : Live → List Message → Type 0
Allows l [] = Unit
Allows l (m ∷ ms) = Allowed m l × Allows (after m l) ms

pub pending-append :
    (ms : List Message) (m : Message) (l : Live) → pending (ms ++ m ∷ []) l ≡ after m (pending ms l)
pending-append [] m l = refl
pending-append (n ∷ ms) m l = pending-append ms m (after n l)

pub Allows-append :
    (ms : List Message) (m : Message) (l : Live)
    → Allows l ms
    → Allowed m (pending ms l)
    → Allows l (ms ++ m ∷ [])
Allows-append [] m l h k = (k, tt)
Allows-append (n ∷ ms) m l (h, hs) k = (h, Allows-append ms m (after n l) hs k)

-- A set within another.
abbrev pub Within : Keys → Keys → Type 0
Within s t = (x : ℕ) → s x ≡ true → t x ≡ true

insert-Within : (x : ℕ) (s t : Keys) → Within s t → Within (insert x s) (insert x t)
insert-Within x s t h y = elim (Bool-cases (x == y)) [
  | inl e ↦ λ k. rw e refl
  | inr e ↦ λ k. rw e (h y (rw e at k))
]

pub insert_all-Within :
    (xs : List ℕ) (s t : Keys) → Within s t → Within (insert_all xs s) (insert_all xs t)
insert_all-Within [] s t h = h
insert_all-Within (x ∷ xs) s t h =
    insert_all-Within xs (insert x s) (insert x t) (insert-Within x s t h)

not_in : (s t : Keys) (x : ℕ) → Within s t → t x ≡ false → s x ≡ false
not_in s t x h e = elim (Bool-cases (s x)) [
  | inl there ↦ true≢false (h x there) e
  | inr free ↦ free
]

pub AllNew-Within : (xs : List ℕ) (s t : Keys) → Within s t → AllNew t xs → AllNew s xs
AllNew-Within [] s t h k = tt
AllNew-Within (x ∷ xs) s t h (k, ks) =
    (not_in s t x h k, AllNew-Within xs (insert x s) (insert x t) (insert-Within x s t h) ks)

-- What is held exists.
abbrev pub HeldAlive : Live → Type 0
HeldAlive l = Within l.held l.alive

after-HeldAlive : (m : Message) (l : Live) → HeldAlive l → HeldAlive (after m l)
after-HeldAlive (add_operator op) l h = insert_all-Within (addresses op.outputs) l.held l.alive h
after-HeldAlive (api_tensor_no_hold x) l h = λ y k. h y (ground arith)
after-HeldAlive (set_graph_name name) l h = h
after-HeldAlive (set_operand_name x name) l h = h

pub pending-HeldAlive : (ms : List Message) (l : Live) → HeldAlive l → HeldAlive (pending ms l)
pending-HeldAlive [] l h = h
pending-HeldAlive (m ∷ ms) l h = pending-HeldAlive ms (after m l) (after-HeldAlive m l h)

-- Objects that end make room: the messages stay as they are allowed.
pub record Shrinks (l l' : Live) : Type 0 where
  pub held : l.held ≡ l'.held
  pub alive : Within l'.alive l.alive
  pub operators : Within l'.operators l.operators

Allowed-Shrinks : (m : Message) (l l' : Live) → Shrinks l l' → Allowed m l → Allowed m l'
Allowed-Shrinks (add_operator op) l l' s (h, (new, free), good) = (
  subst (λ z. All (λ x. z x ≡ true) op.inputs) s.held h,
  (
    AllNew-Within (addresses op.outputs) l'.alive l.alive s.alive new,
    not_in l'.operators l.operators op.address s.operators free,
  ),
  good,
)
Allowed-Shrinks (api_tensor_no_hold x) l l' s h = subst (λ z. z x ≡ true) s.held h
Allowed-Shrinks (set_graph_name name) l l' s h = tt
Allowed-Shrinks (set_operand_name x name) l l' s h = subst (λ z. z x ≡ true) s.held h

after-Shrinks : (m : Message) (l l' : Live) → Shrinks l l' → Shrinks (after m l) (after m l')
after-Shrinks (add_operator op) l l' s = record {
  held = ap (insert_all (addresses op.outputs)) s.held;
  alive = insert_all-Within (addresses op.outputs) l'.alive l.alive s.alive;
  operators = insert-Within op.address l'.operators l.operators s.operators;
}
after-Shrinks (api_tensor_no_hold x) l l' s = record {
  held = ap (erase x) s.held;
  alive = s.alive;
  operators = s.operators;
}
after-Shrinks (set_graph_name name) l l' s = s
after-Shrinks (set_operand_name x name) l l' s = s

pub Allows-Shrinks : (ms : List Message) (l l' : Live) → Shrinks l l' → Allows l ms → Allows l' ms
Allows-Shrinks [] l l' s h = tt
Allows-Shrinks (m ∷ ms) l l' s (h, hs) = (
  Allowed-Shrinks m l l' s h,
  Allows-Shrinks ms (after m l) (after m l') (after-Shrinks m l l' s) hs,
)

pub pending-Shrinks :
    (ms : List Message) (l l' : Live) → Shrinks l l' → Shrinks (pending ms l) (pending ms l')
pending-Shrinks [] l l' s = s
pending-Shrinks (m ∷ ms) l l' s =
    pending-Shrinks ms (after m l) (after m l') (after-Shrinks m l l' s)
