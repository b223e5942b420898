-- ===== src/Interpreter/Sound/Combinators.antt =====
-- What each fragment of src/interpreter/mod.rs makes of its children's Booleans, against when the
-- fragment can be spent.
use rust_miniscript.Prelude.{Bool, true, false, ◌&&◌, ◌||◌, [], ◌∷◌, ◌≡◌, refl, subst}
use rust_miniscript.Primitives.Locktime.{Bitcoin}
use rust_miniscript.Types.Kinds.{Base}
use rust_miniscript.Policy.Semantic.{Policy}
use rust_miniscript.Interpreter.Keys.{Crypto, bitcoin_key}
use rust_miniscript.Interpreter.Stack.{Element, Stack}
use rust_miniscript.Interpreter.Evaluator.{
  Run, Spend, and_then, boolean, satisfy, dissatisfy, verify_top, not_zero, unless_zero, and_top,
  replace_top,
}
use rust_miniscript.Interpreter.Sound.Bases.{is_boolean}
use rust_miniscript.Interpreter.Sound.Leaves.{Shown, Shown-map, Means, Leaves, and_then-Leaves}

pub and_true : (a b : Bool) → a ≡ true → b ≡ true → (a && b) ≡ true
and_true a b p q = rw (p, q) refl

pub or_left : (a b : Bool) → a ≡ true → (a || b) ≡ true
or_left a b p = rw p refl

pub or_right : (a b : Bool) → b ≡ true → (a || b) ≡ true
or_right true b q = refl
or_right false b q = q

pub or_false : (a b : Bool) → (a || b) ≡ false → (a ≡ false) × (b ≡ false)
or_false true b h = cc
or_false false b h = (refl, h)

pub Means-map :
    (x : Base) (sp sq : Bool)
    → (sp ≡ true → sq ≡ true)
    → (st : Stack) → Means x sp st
    → Means x sq st
Means-map Base.b sp sq f st h = Shown-map sp sq f st h
Means-map Base.k sp sq f st h = Shown-map sp sq f st h
Means-map Base.v sp sq f st h = f h
Means-map Base.w sp sq f st h = Shown-map sp sq f st h

Means-satisfied :
    (x : Base) (sp : Bool) (st : Stack) → sp ≡ true → Means x sp (Element.satisfied ∷ st)
Means-satisfied Base.b sp st e = e
Means-satisfied Base.k sp st e = e
Means-satisfied Base.v sp st e = e
Means-satisfied Base.w sp st e = e

Means-Shown :
    (x : Base) (sp : Bool) (st : Stack) → is_boolean x ≡ true → Means x sp st → Shown sp st
Means-Shown Base.b sp st e h = h
Means-Shown Base.k sp st e h = h
Means-Shown Base.w sp st e h = h
Means-Shown Base.v sp st e h = cc

module _ {B : Bitcoin} (C : Crypto B) (env : Spend C) (v : Policy B (bitcoin_key C) → Bool) where
  abbrev Leaving : Run C → Stack → Type 0
  Leaving = Leaves C env.sig_type v

  -- Whatever a run starts with, what it leaves means `sp`.
  abbrev pub Says : (Stack → Run C) → Base → Bool → Type 0
  Says run x sp = (old st : Stack) → Leaving (run old) st → Means x sp st

  pub Says-Shown :
      (run : Stack → Run C) (x : Base) (sp : Bool)
      → is_boolean x ≡ true
      → Says run x sp
      → Says run Base.b sp
  Says-Shown run x sp e h old st p = Means-Shown x sp st e (h old st p)

  -- The arm that is taken, with what the Boolean on the stack showed.
  pub boolean-Leaves :
      {P : Type 0} (f g : Stack → Run C) (mid st : Stack) (sp : Bool)
      → Shown sp mid
      → ((rest : Stack) → Leaving (f rest) st → P)
      → (sp ≡ true → (rest : Stack) → Leaving (g rest) st → P)
      → Leaving (boolean C f g mid) st
      → P
  boolean-Leaves f g (Element.dissatisfied ∷ rest) st sp s no_case yes_case h = no_case rest h
  boolean-Leaves f g (Element.satisfied ∷ rest) st sp s no_case yes_case h = yes_case s rest h
  boolean-Leaves f g (Element.push b ∷ rest) st sp s no_case yes_case h = absurd h
  boolean-Leaves f g [] st sp s no_case yes_case h = absurd h

  verify_top-Leaves :
      (mid st : Stack) (sp : Bool) → Shown sp mid → Leaving (verify_top C mid) st → sp ≡ true
  verify_top-Leaves (Element.dissatisfied ∷ rest) st sp s h = absurd h
  verify_top-Leaves (Element.satisfied ∷ rest) st sp s h = s
  verify_top-Leaves (Element.push b ∷ rest) st sp s h = absurd h
  verify_top-Leaves [] st sp s h = absurd h

  not_zero-Leaves :
      (mid st : Stack) (sp : Bool) → Shown sp mid → Leaving (not_zero C mid) st → Shown sp st
  not_zero-Leaves (Element.dissatisfied ∷ rest) st sp s h = subst (Shown sp) h tt
  not_zero-Leaves (Element.satisfied ∷ rest) st sp s h = subst (Shown sp) h s
  not_zero-Leaves (Element.push b ∷ rest) st sp s h = absurd s
  not_zero-Leaves [] st sp s h = absurd h

  and_top-Leaves :
      (mid st : Stack) (sp : Bool) → Shown sp mid → Leaving (and_top C mid) st → Shown sp st
  and_top-Leaves (Element.dissatisfied ∷ rest) st sp s h = subst (Shown sp) h tt
  and_top-Leaves (Element.satisfied ∷ rest) st sp s h = subst (Shown sp) h s
  and_top-Leaves (Element.push b ∷ rest) st sp s h = absurd s
  and_top-Leaves [] st sp s h = absurd h

  replace_top-Leaves :
      (e : Element) (mid st : Stack) (sp : Bool)
      → ((rest : Stack) → Shown sp (e ∷ rest))
      → Leaving (replace_top C e mid) st
      → Shown sp st
  replace_top-Leaves e (x ∷ rest) st sp s h = subst (Shown sp) h (s rest)
  replace_top-Leaves e [] st sp s h = absurd h

  module _ (l r : Stack → Run C) (a b : Bool) where
    pub verify-Says : Says l Base.b a → Says (λ old. and_then C (l old) (verify_top C)) Base.v a
    verify-Says ih old st h =
        let (mid, first, second) = and_then-Leaves C env.sig_type v (l old) (verify_top C) st h in
        verify_top-Leaves mid st a (ih old mid first) second

    pub not_zero-Says : Says l Base.b a → Says (λ old. and_then C (l old) (not_zero C)) Base.b a
    not_zero-Says ih old st h =
        let (mid, first, second) = and_then-Leaves C env.sig_type v (l old) (not_zero C) st h in
        not_zero-Leaves mid st a (ih old mid first) second

    pub dup_if-Says :
        Says l Base.v a
        → Says (boolean C (dissatisfy C) (λ mid. and_then C (l mid) (satisfy C))) Base.b a
    dup_if-Says ih [] st h = absurd h
    dup_if-Says ih (Element.push x ∷ old) st h = absurd h
    dup_if-Says ih (Element.dissatisfied ∷ old) st h = subst (Shown a) h tt
    dup_if-Says ih (Element.satisfied ∷ old) st h =
        let (mid, first, second) = and_then-Leaves C env.sig_type v (l old) (satisfy C) st h in
        subst (Shown a) second (ih old mid first)

    pub non_zero-Says : Says l Base.b a → Says (unless_zero C l) Base.b a
    non_zero-Says ih [] st h = absurd h
    non_zero-Says ih (Element.dissatisfied ∷ old) st h = subst (Shown a) h tt
    non_zero-Says ih (Element.satisfied ∷ old) st h = ih (Element.satisfied ∷ old) st h
    non_zero-Says ih (Element.push x ∷ old) st h = ih (Element.push x ∷ old) st h

    pub and_v-Says :
        (x : Base) → Says l Base.v a → Says r x b → Says (λ old. and_then C (l old) r) x (a && b)
    and_v-Says x p q old st h =
        let (mid, first, second) = and_then-Leaves C env.sig_type v (l old) r st h in
        Means-map x b (a && b) (and_true a b (p old mid first)) st (q mid st second)

    pub and_b-Says :
        Says l Base.b a
        → Says r Base.b b
        → Says
            (λ old. and_then C (l old) (
              boolean C
                (λ mid. and_then C (r mid) (replace_top C Element.dissatisfied))
                (λ mid. and_then C (r mid) (and_top C))))
            Base.b
            (a && b)
    and_b-Says p q old st h =
        let on_no : Stack → Run C = λ z. and_then C (r z) (replace_top C Element.dissatisfied) in
        let on_yes : Stack → Run C = λ z. and_then C (r z) (and_top C) in
        let (mid, first, second) =
          and_then-Leaves C env.sig_type v (l old) (boolean C on_no on_yes) st h in
        boolean-Leaves on_no on_yes mid st a (p old mid first)
          (λ rest k.
            let (end, right, last) =
              and_then-Leaves C env.sig_type v (r rest) (replace_top C Element.dissatisfied) st k in
            replace_top-Leaves Element.dissatisfied end st (a && b) (λ z. tt) last)
          (λ e rest k.
            let (end, right, last) = and_then-Leaves C env.sig_type v (r rest) (and_top C) st k in
            Shown-map b (a && b) (and_true a b e) st
              (and_top-Leaves end st b (q rest end right) last))
          second

    pub or_b-Says :
        Says l Base.b a
        → Says r Base.b b
        → Says
            (λ old. and_then C (l old) (
              boolean C
                (λ mid. and_then C (r mid) (not_zero C))
                (λ mid. and_then C (r mid) (replace_top C Element.satisfied))))
            Base.b
            (a || b)
    or_b-Says p q old st h =
        let on_no : Stack → Run C = λ z. and_then C (r z) (not_zero C) in
        let on_yes : Stack → Run C = λ z. and_then C (r z) (replace_top C Element.satisfied) in
        let (mid, first, second) =
          and_then-Leaves C env.sig_type v (l old) (boolean C on_no on_yes) st h in
        boolean-Leaves on_no on_yes mid st a (p old mid first)
          (λ rest k.
            let (end, right, last) = and_then-Leaves C env.sig_type v (r rest) (not_zero C) st k in
            Shown-map b (a || b) (or_right a b) st
              (not_zero-Leaves end st b (q rest end right) last))
          (λ e rest k.
            let (end, right, last) =
              and_then-Leaves C env.sig_type v (r rest) (replace_top C Element.satisfied) st k in
            replace_top-Leaves Element.satisfied end st (a || b) (λ z. or_left a b e) last)
          second

    pub or_c-Says :
        Says l Base.b a
        → Says r Base.v b
        → Says (λ old. and_then C (l old) (boolean C r Run.done)) Base.v (a || b)
    or_c-Says p q old st h =
        let (mid, first, second) =
          and_then-Leaves C env.sig_type v (l old) (boolean C r Run.done) st h in
        boolean-Leaves r Run.done mid st a (p old mid first) (λ rest k. or_right a b (q rest st k))
          (λ e rest k. or_left a b e) second

    pub or_d-Says :
        (x : Base)
        → Says l Base.b a
        → Says r x b
        → Says (λ old. and_then C (l old) (boolean C r (satisfy C))) x (a || b)
    or_d-Says x p q old st h =
        let (mid, first, second) =
          and_then-Leaves C env.sig_type v (l old) (boolean C r (satisfy C)) st h in
        boolean-Leaves r (satisfy C) mid st a (p old mid first)
          (λ rest k. Means-map x b (a || b) (or_right a b) st (q rest st k))
          (λ e rest k. subst (Means x (a || b)) k (Means-satisfied x (a || b) rest (or_left a b e)))
          second

    pub or_i-Says : (x : Base) → Says l x a → Says r x b → Says (boolean C r l) x (a || b)
    or_i-Says x p q [] st h = absurd h
    or_i-Says x p q (Element.push z ∷ old) st h = absurd h
    or_i-Says x p q (Element.dissatisfied ∷ old) st h =
        Means-map x b (a || b) (or_right a b) st (q old st h)
    or_i-Says x p q (Element.satisfied ∷ old) st h =
        Means-map x a (a || b) (or_left a b) st (p old st h)

    pub and_or-Says :
        (first : Stack → Run C) (c : Bool) (x : Base)
        → Says first Base.b c
        → Says l x a
        → Says r x b
        → Says (λ old. and_then C (first old) (boolean C r l)) x ((c && a) || b)
    and_or-Says first c x s p q old st h =
        let (mid, before, second) =
          and_then-Leaves C env.sig_type v (first old) (boolean C r l) st h in
        boolean-Leaves r l mid st c (s old mid before)
          (λ rest k. Means-map x b ((c && a) || b) (or_right (c && a) b) st (q rest st k))
          (λ e rest k.
            Means-map x a ((c && a) || b) (λ t. or_left (c && a) b (and_true c a e t)) st
              (p rest st k))
          second
