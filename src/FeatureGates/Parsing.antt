-- ===== src/FeatureGates/Parsing.antt =====
-- Which gates are on after the flags were read.
use k0smotron.Prelude.{
  String, subst, List, [], ◌∷◌, Bool, true, ◌==◌, eq_iff, Option, none, some, is_some, ◌≡◌, refl,
  sym, ap, ◌∙◌, if◌then◌else◌, arith, Bool-cases, inl, inr, split,
}
use k0smotron.Kube.{ok, Result-cases}
use k0smotron.FeatureGates.{
  Gates, gate_of, set_gate, parse_pair, parse_pairs, parse_feature_gate_flags, set_if_known,
  apply_next, apply, configure_parsed, configure,
}

-- No name stands twice.
AreDistinct : Gates → Type 0
AreDistinct [] = Unit
AreDistinct (g ∷ gs) = (gate_of g.0 gs ≡ none) × AreDistinct gs

gate_of-set_gate :
    (k n : String) (b : Bool) (gs : Gates)
    → gate_of n (set_gate k b gs) ≡ (if k == n then some b else gate_of n gs)
unfolding gate_of set_gate
gate_of-set_gate k n b [] = ground arith
gate_of-set_gate k n b (g ∷ gs) =
    ground (arith, gate_of-set_gate k n b gs, eq_iff g.0 k, eq_iff g.0 n, eq_iff k n)

set_gate-AreDistinct :
    (k : String) (b : Bool) (gs : Gates) → AreDistinct gs → AreDistinct (set_gate k b gs)
unfolding AreDistinct set_gate gate_of
set_gate-AreDistinct k b [] h = (refl, tt)
set_gate-AreDistinct k b (g ∷ gs) h = elim (Bool-cases (g.0 == k)) [
  | inl e ↦ rw e (ap (λ n. gate_of n gs) (sym ((eq_iff g.0 k).0 e)) ∙ h.0, h.1)
  | inr e ↦ rw e (
    gate_of-set_gate k g.0 b gs ∙ ground (arith, h.0, e, eq_iff k g.0, eq_iff g.0 k),
    set_gate-AreDistinct k b gs h.1,
  )
]

parse_pairs-AreDistinct :
    (ps : List String) (gates parsed : Gates)
    → AreDistinct gates
    → parse_pairs ps gates ≡ ok parsed
    → AreDistinct parsed
unfolding parse_pairs
parse_pairs-AreDistinct [] gates parsed d h =
    let same : gates ≡ parsed = cc in subst AreDistinct same d
parse_pairs-AreDistinct (p ∷ ps) gates parsed d h = elim (Result-cases (parse_pair p)) [
  | inl (g, e) ↦
      let later : parse_pairs ps (set_gate g.0 g.1 gates) ≡ ok parsed = rw e at h in
      parse_pairs-AreDistinct ps (set_gate g.0 g.1 gates) parsed
        (set_gate-AreDistinct g.0 g.1 gates d) later
  | inr (a, e) ↦ cc
]

flags-AreDistinct :
    (flag : String) (parsed : Gates)
    → parse_feature_gate_flags flag ≡ ok parsed
    → AreDistinct parsed
unfolding parse_feature_gate_flags AreDistinct
flags-AreDistinct flag parsed h = elim (Bool-cases (flag == "")) [
  | inl e ↦ let same : [] ≡ parsed = (let h' = rw e at h in cc) in subst AreDistinct same tt
  | inr e ↦ parse_pairs-AreDistinct (split b',' flag) [] parsed tt (rw e at h)
]

-- A value that is given, or else the one before.
abbrev pub given_or : Option Bool → Option Bool → Option Bool
given_or (some b) before = some b
given_or none before = before

-- The gates afterwards, feature by feature; only features that are there were given.
abbrev pub AreSet : Gates → Gates → Gates → Type 0
AreSet parsed gates gates' =
    (n : String)
    → (gate_of n gates' ≡ given_or (gate_of n parsed) (gate_of n gates))
      × (is_some (gate_of n parsed) ≡ true → is_some (gate_of n gates) ≡ true)

one_more :
    (g : String × Bool) (gs gates gates' : Gates) (x : Bool)
    → gate_of g.0 gates ≡ some x
    → gate_of g.0 gs ≡ none
    → AreSet gs (set_gate g.0 g.1 gates) gates'
    → AreSet (g ∷ gs) gates gates'
unfolding gate_of
one_more g gs gates gates' x known first later n =
    let set = gate_of-set_gate g.0 n g.1 gates in
    elim (Bool-cases (g.0 == n)) [
      | inl e ↦
          let same = (eq_iff g.0 n).0 e in
          let not_later : gate_of n gs ≡ none = subst (λ z. gate_of z gs ≡ none) same first in
          let there : gate_of n gates ≡ some x = subst (λ z. gate_of z gates ≡ some x) same known in
          ((later n).0 ∙ rw (not_later, set, e) refl, λ h. rw there refl)
      | inr e ↦ (
        (later n).0 ∙ rw (set, e) refl,
        λ h.
            let h' : is_some (gate_of n gs) ≡ true = ground (arith, h, e) in
            let known_later = (later n).1 h' in ground (arith, known_later, set, e),
      )
    ]

by_known :
    (g : String × Bool) (gs gates : Gates) (o : Option Bool)
    → gate_of g.0 gates ≡ o
    → gate_of g.0 gs ≡ none
    → ((gates' : Gates) → (apply gs gates').0 ≡ ok tt → AreSet gs gates' (apply gs gates').1)
    → (apply_next (set_if_known g.0 g.1 gates o) (apply gs)).0 ≡ ok tt
    → AreSet (g ∷ gs) gates (apply_next (set_if_known g.0 g.1 gates o) (apply gs)).1
unfolding set_if_known apply_next
by_known g gs gates none known first rest h = cc
by_known g gs gates (some x) known first rest h =
    one_more g gs gates (apply gs (set_gate g.0 g.1 gates)).1 x known first
      (rest (set_gate g.0 g.1 gates) h)

apply-AreSet :
    (parsed gates : Gates)
    → AreDistinct parsed
    → (apply parsed gates).0 ≡ ok tt
    → AreSet parsed gates (apply parsed gates).1
unfolding apply set_if_known apply_next AreDistinct gate_of
apply-AreSet [] gates d h = λ n. (refl, λ e. cc)
apply-AreSet (g ∷ gs) gates d h =
    by_known g gs gates (gate_of g.0 gates) refl d.0 (λ gates'. apply-AreSet gs gates' d.1) h

-- When the configuration succeeds, the gates that are in effect are those of the flags and, where
-- the flags have none, those before; and all features that the flags name are there. A flag variable
-- of the environment that is not empty takes the place of the flag.
pub configure_sets :
    (flag env_var : String) (gates parsed : Gates)
    → parse_feature_gate_flags (if env_var == "" then flag else env_var) ≡ ok parsed
    → (configure flag env_var gates).0 ≡ ok tt
    → AreSet parsed gates (configure flag env_var gates).1
unfolding configure configure_parsed
configure_sets flag env_var gates parsed read good =
    let is_apply : configure flag env_var gates ≡ apply parsed gates = rw read refl in
    subst (λ r. AreSet parsed gates r.1) (sym is_apply)
      (apply-AreSet parsed gates (flags-AreDistinct _ parsed read)
        (sym (ap (λ r. r.0) is_apply) ∙ good))
