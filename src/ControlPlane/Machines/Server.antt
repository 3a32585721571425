-- ===== src/ControlPlane/Machines/Server.antt =====
-- The Machine that an API server has after requests.
use k0smotron.Prelude.{
  String, List, [], ◌∷◌, ◌++◌, append_assoc, append-nil, ◌≡◌, refl, ◌∙◌, ◌==◌, is_some,
  if◌then◌else◌,
}
use k0smotron.Kube.{Api, Call, Machine, patch_machine}

-- The object that the server has behind one more request: a patch that it accepts replaces it.
abbrev pub patched : Api → String → List Call → Machine → Call → Machine
patched k m done o (patch_machine x) =
    if is_some (k.reply done (patch_machine x)) then o else if x.name == m then x else o
patched k m done o _ = o

stored_from : Api → String → List Call → Machine → List Call → Machine
stored_from k m done o [] = o
stored_from k m done o (c ∷ cs) = stored_from k m (done ++ c ∷ []) (patched k m done o c) cs

-- The Machine `m` on the server after requests, if it was `o` before them.
unfoldable pub stored : Api → String → Machine → List Call → Machine
unfolding stored_from
stored k m o cs = stored_from k m [] o cs

stored_from-snoc :
    (k : Api) (m : String) (done : List Call) (o : Machine) (cs : List Call) (c : Call)
    → stored_from k m done o (cs ++ c ∷ []) ≡ patched k m (done ++ cs) (stored_from k m done o cs) c
unfolding stored_from
stored_from-snoc k m done o [] c = rw (append-nil done) refl
stored_from-snoc k m done o (d ∷ cs) c =
    stored_from-snoc k m (done ++ d ∷ []) (patched k m done o d) cs c
    ∙ rw (append_assoc done (d ∷ []) cs) refl

pub stored-snoc :
    (k : Api) (m : String) (o : Machine) (cs : List Call) (c : Call)
    → stored k m o (cs ++ c ∷ []) ≡ patched k m cs (stored k m o cs) c
unfolding stored
stored-snoc k m o cs c = stored_from-snoc k m [] o cs c
