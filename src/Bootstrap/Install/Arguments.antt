-- ===== src/Bootstrap/Install/Arguments.antt =====
-- How the arguments of k0s and of the kubelet are merged.
use Prim.Native.Char.{Char, char}
use k0smotron.Prelude.{
  String, List, [], ◌∷◌, ◌++◌, append-nil, append_assoc, map, keep, Bool, true, false, not, sym,
  join, onto, is_free, IsFree, cut, arith, ◌≡◌, refl, ap, ◌∙◌, Bool-cases, inl, inr,
}
use k0smotron.Bootstrap.Install.{
  is_kubelet_argument, kubelet_value, trim_quotes, trim_front, trim_back, is_quote, text_of, space,
  merge_from, with_kubelet, node_labels, host_name, merge_extra_args,
}

-- What the loop collects, behind what there was before.
merge_from-keep :
    (args kubelet as' : List String)
    → merge_from args kubelet as' ≡ (
      args ++ keep (λ a. not (is_kubelet_argument a)) as',
      kubelet ++ map kubelet_value (keep is_kubelet_argument as'),
    )
unfolding merge_from
merge_from-keep args kubelet [] = rw (append-nil args, append-nil kubelet) refl
merge_from-keep args kubelet (a ∷ as') = elim (Bool-cases (is_kubelet_argument a)) [
  | inl e ↦ rw e (
      merge_from-keep args (kubelet ++ kubelet_value a ∷ []) as'
      ∙ ap (λ k. (args ++ keep (λ b. not (is_kubelet_argument b)) as', k))
          (append_assoc kubelet (kubelet_value a ∷ [])
            (map kubelet_value (keep is_kubelet_argument as'))))
  | inr e ↦ rw e (
      merge_from-keep (args ++ a ∷ []) kubelet as'
      ∙ ap (λ k. (k, kubelet ++ map kubelet_value (keep is_kubelet_argument as')))
          (append_assoc args (a ∷ []) (keep (λ b. not (is_kubelet_argument b)) as')))
]

-- What a node gets in its own name, and the one argument for the kubelet.
abbrev pub label_argument : String → Bool → List String
label_argument owner true =
    text_of ("--labels=" ∷ "k0smotron.io/machine-name" ∷ "=" ∷ owner ∷ []) ∷ []
label_argument owner false = []

abbrev pub host_argument : String → Bool → Bool → List String
host_argument owner true false = text_of ("--hostname-override=" ∷ owner ∷ []) ∷ []
host_argument owner true true = []
host_argument owner false _ = []

abbrev pub kubelet_argument : List String → List String
kubelet_argument [] = []
kubelet_argument (v ∷ vs) =
    text_of ("--kubelet-extra-args=\"" ∷ join space (v ∷ vs) ∷ "\"" ∷ []) ∷ []

with_kubelet-kubelet_argument :
    (args vs : List String) → with_kubelet (args, vs) ≡ args ++ kubelet_argument vs
unfolding with_kubelet
with_kubelet-kubelet_argument args [] = sym (append-nil args)
with_kubelet-kubelet_argument args (v ∷ vs) = refl

node_labels-label_argument :
    (owner : String) (is_worker : Bool)
    → node_labels owner is_worker ≡ label_argument owner is_worker
node_labels-label_argument owner true = refl
node_labels-label_argument owner false = refl

host_name-host_argument :
    (owner : String) (is_worker use_system_hostname : Bool)
    → host_name owner is_worker use_system_hostname
      ≡ host_argument owner is_worker use_system_hostname
host_name-host_argument owner true true = refl
host_name-host_argument owner true false = refl
host_name-host_argument owner false use_system_hostname = refl

abbrev quote : Char
quote = char b'"' tt

-- Neither kind of quote stands in the text.
abbrev pub IsPlain : String → Type 0
IsPlain v = IsFree b'"' v × IsFree b'\'' v

-- The value in quotes.
abbrev pub quoted : String → String
quoted v = join quote ("--kubelet-extra-args=" ∷ v ∷ "" ∷ [])

IsPlain-head : (c : Char) (v : String) → IsPlain (String.◌∷◌ c v) → is_quote c ≡ false
unfolding is_quote is_free
IsPlain-head c v h = ground (arith, h.0, h.1)

IsPlain-tail : (c : Char) (v : String) → IsPlain (String.◌∷◌ c v) → IsPlain v
unfolding is_free
IsPlain-tail c v h = (ground (arith, h.0), ground (arith, h.1))

trim_back-onto : (v : String) → IsPlain v → trim_back (onto v (join quote ("" ∷ "" ∷ []))) ≡ v
unfolding trim_back is_quote onto join is_free
trim_back-onto String.[] h = refl
trim_back-onto (String.◌∷◌ c v) h =
    rw (trim_back-onto v (IsPlain-tail c v h), IsPlain-head c v h) refl

kubelet_value-quoted : (v : String) → IsPlain v → kubelet_value (quoted v) ≡ v
unfolding kubelet_value trim_quotes trim_front is_quote cut join onto is_free
kubelet_value-quoted String.[] h = refl
kubelet_value-quoted (String.◌∷◌ c v) h =
    rw (IsPlain-head c v h) (rw (trim_back-onto v (IsPlain-tail c v h), IsPlain-head c v h) refl)

-- The merged arguments are the label of the node, if it is a worker; then the arguments that are
-- not for the kubelet, in their order; and at the end one argument for the kubelet, if there is
-- something for it: the name of the host, if the node is a worker that does not use the system's,
-- and then the values of all the arguments for the kubelet, in their order. The value of such an
-- argument with a text in double quotes behind "=", that has no quotes in it, is that text.
pub merge_extra_args-keep :
    (args : List String) (owner : String) (is_worker use_system_hostname : Bool)
    → (merge_extra_args args owner is_worker use_system_hostname
        ≡ (label_argument owner is_worker ++ keep (λ a. not (is_kubelet_argument a)) args)
          ++ kubelet_argument (
              host_argument owner is_worker use_system_hostname
              ++ map kubelet_value (keep is_kubelet_argument args)))
      × ((v : String) → IsPlain v → kubelet_value (quoted v) ≡ v)
unfolding merge_extra_args
merge_extra_args-keep args owner is_worker use_system_hostname = (
  rw
      (
        merge_from-keep (node_labels owner is_worker)
            (host_name owner is_worker use_system_hostname) args,
        node_labels-label_argument owner is_worker,
        host_name-host_argument owner is_worker use_system_hostname,
      )
      (with_kubelet-kubelet_argument _ _),
  kubelet_value-quoted,
)
