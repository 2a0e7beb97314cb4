-- ===== src/Validation/StorageFixed.antt =====
-- What a command that adds nothing tells of the storage aliases.
use psic.Prelude.{◌≡◌, refl, ◌≢◌, Bool, true, false, Text, List, arith, subst, ap, some}
use psic.Ast.{TypeNode, CommandNode}
use psic.Target.Pick.{Checked, value}
use psic.Validation.Checked.{value-inj}
use psic.Validation.Environment.{Map, TypeEnvironment, member}
use psic.Validation.Command.{target_register, targets_register, no_accessors}
use psic.Validation.Aliases.{Flow}
use psic.Validation.Flow.{add_storage, add_when, store_step, memcpy_step, load_step}
use psic.Validation.Closure.{
  command_step, target_step, plain_step, target_type, array_step, storage_step,
}
use psic.Validation.Grows.{RefersWithin, bind-Grows}
use psic.Validation.FlowSteps.{Covers, store_step-Grows, memcpy_step-Grows, load_step-Grows, after}
use psic.Validation.ClosureSteps.{
  target_step-Grows, array_step-Grows, pure_steps, pure_steps-Grows, storage_step-Grows,
}
use psic.Validation.Fixed.{bind-fixed, Grows-same, Returns-value}

module _ (names : List Text) (env : TypeEnvironment) (visible : Map TypeNode)
    (command : CommandNode) (m : member names (target_register command).name ≡ true)
    (c : Covers names command.values) where
  target-fixed :
      (f : Flow)
      → RefersWithin names f.local_references
      → command_step env visible command f ≡ value f
      → target_step env visible command f ≡ value f
  unfolding command_step
  target-fixed f w h =
      let target = target_step-Grows names env visible command m c in
      let load = load_step-Grows names env visible command m in
      let memcpy = memcpy_step-Grows names env visible command c in
      let store = store_step-Grows names env visible command in
      let behind_store =
        bind-fixed names (store_step env visible command) _ f store
          (bind-Grows names memcpy (bind-Grows names load target)) w h in
      let behind_memcpy =
        bind-fixed names (memcpy_step env visible command) _ f memcpy (bind-Grows names load target)
          w behind_store.1 in
      (bind-fixed names (load_step env visible command) (target_step env visible command) f load
        target w behind_memcpy.1).1

  -- The last step of a command with a plain register as its target.
  pub storage-fixed :
      (f : Flow) (type : TypeNode)
      → RefersWithin names f.local_references
      → targets_register command ≡ true
      → no_accessors (target_register command) ≡ true
      → target_type env visible command ≡ some type
      → command_step env visible command f ≡ value f
      → storage_step env visible (target_register command).name type command f ≡ value f
  unfolding target_step plain_step
  storage-fixed f type w t p e h =
      let x = (target_register command).name in
      let plain = (rw (t, p, e) at (target-fixed f w h)) in
      let pure = pure_steps-Grows names env visible command x m c f w in
      let last =
        (bind-fixed names (array_step env visible x command)
          (λ g. storage_step env visible x type command (pure_steps names env visible x command g))
          f (array_step-Grows names env visible command x m)
          (λ g v.
            after names env visible (pure_steps-Grows names env visible command x m c) v
              (storage_step-Grows names env visible command type x m))
          w plain).1 in
      let back =
        Returns-value names (storage_step-Grows names env visible command type x m _ pure.1) last in
      let same = Grows-same names f _ pure back in
      subst (λ g. storage_step env visible x type command g ≡ value f) same last

add_storage-added :
    (x : Text) (f : Flow)
    → member f.local_storage_aliases x ≡ false
    → (add_storage x f).added ≡ true
unfolding add_storage
add_storage-added x f e = rw e refl

pub add_when-fixed :
    (condition : Checked Bool) (x : Text) (f : Flow)
    → add_when condition (add_storage x) f ≡ value f
    → f.added ≡ false
    → member f.local_storage_aliases x ≡ false
    → condition ≢ value true
add_when-fixed condition x f h a e t =
    let same = value-inj (rw t at h) in
    let added = add_storage-added x f e in absurd (ground (arith, a, added, ap (λ g. g.added) same))
