-- ===== src/Bootstrap/Args/Worker.antt =====
-- When a control plane also runs worker nodes.
use k0smotron.Prelude.{String, List, [], ◌∷◌, ◌++◌, true, false, ◌||◌, ◌≡◌, refl, cut, arith}
use k0smotron.Bootstrap.Args.{args_enable_worker, arg_enables_worker}

-- The answer for two lists of arguments, one behind the other, is yes exactly when it is for one of
-- them: neither the order nor later arguments can take it back.
pub args_enable_worker-append :
    (xs ys : List String)
    → args_enable_worker (xs ++ ys) ≡ (args_enable_worker xs || args_enable_worker ys)
unfolding args_enable_worker
args_enable_worker-append [] ys = ground arith
args_enable_worker-append (x ∷ xs) ys = ground (arith, args_enable_worker-append xs ys)

bare_flag : args_enable_worker ("--no-taints" ∷ "--enable-worker" ∷ []) ≡ true
unfolding args_enable_worker arg_enables_worker cut
bare_flag = refl

flag_value : args_enable_worker ("--enable-worker=T" ∷ []) ≡ true
unfolding args_enable_worker arg_enables_worker cut
flag_value = refl

flag_off : args_enable_worker ("--enable-worker=false" ∷ "--single=0" ∷ []) ≡ false
unfolding args_enable_worker arg_enables_worker cut
flag_off = refl
