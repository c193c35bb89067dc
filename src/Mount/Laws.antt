-- ===== src/Mount/Laws.antt =====
-- What holds when the functions of mount.py have returned, whatever the commands did.
use mathlib.Core.List.{Perm}
use waydroid.Base.{◌≡◌, ◌∙◌, inl, inr, String, Bool, true, false, Option, some}
use waydroid.Base.{List, [], ◌∷◌, arith, ok, M, NoneType, for_each}
use waydroid.Base.{query, pure, Bool-cases, if◌then◌else◌, ◌>>◌}
use waydroid.Base.Text.{lines}
use waydroid.Base.Refusal.{bind-eq-ok, then-eq-ok, then_result-eq-ok}
use waydroid.Host.{Host}
use waydroid.Mount.{points, ismount, umount_all_list, umount_all, check_gone, verify}
use waydroid.Mount.{bind_now, bind, mount_now, mount, mount_overlay}
use waydroid.Mount.Order.{IsInnerFirst, sort_reverse-perm, sort_reverse-IsInnerFirst}

ok_inj : {A : Type 0} (a b : A) → ok a ≡ ok b → a ≡ b
ok_inj a b h = cc

abbrev pub AllGone : (H : Host) → List String → H.State → Type 0
AllGone H [] s = Unit
AllGone H (p ∷ ps) s = (ismount H p s ≡ ok false) × AllGone H ps s

module _ (H : Host) where
  open H use {State}

  -- Where umount_all_list returns, its result is a permutation of the mount points selected
  -- from the file, and no path in it stands before a longer path that extends it.
  pub umount_all_list-IsInnerFirst :
      (prefix source text : String) (s : State) (ms : List String)
      → H.read source s ≡ ok text
      → umount_all_list H prefix source s ≡ ok ms
      → IsInnerFirst ms
        × (found : List String) × (points source (H.real_path prefix s) (lines text) ≡ ok found)
        × Perm ms found
  unfolding umount_all_list
  umount_all_list-IsInnerFirst prefix source text s ms r h =
      let (found, selected, sorted) = then_result-eq-ok _ _ ms (rw r at h) in
      let e = ok_inj _ _ sorted in
      (
        rw (← e) (sort_reverse-IsInnerFirst found),
        found,
        selected,
        rw (← e) (sort_reverse-perm found),
      )

  check_gone-eq-ok :
      (p : String) (s t : State)
      → check_gone H p s ≡ (ok tt, t)
      → (s ≡ t) × (ismount H p s ≡ ok false)
  unfolding check_gone
  check_gone-eq-ok p s t h =
      let (mounted, u, asked, rest) = bind-eq-ok (query (ismount H p)) _ s t tt h in
      elim (Bool-cases mounted) [ inl e ↦ ground arith | inr e ↦ ground arith ]

  check_all-eq-ok :
      (ps : List String) (s t : State)
      → for_each ps (check_gone H) s ≡ (ok tt, t)
      → (s ≡ t) × AllGone H ps s
  unfolding for_each
  check_all-eq-ok [] s t h = (cc, tt)
  check_all-eq-ok (p ∷ ps) s t h =
      let (_, u, first, rest) = then-eq-ok (check_gone H p) (for_each ps (check_gone H)) s t tt h in
      let (same, gone) = check_gone-eq-ok p s u first in
      let (same', gone') = check_all-eq-ok ps u t rest in (same ∙ same', (gone, rw same gone'))

  -- Where umount_all returns, none of the mount points that it listed is a mount point any
  -- more.
  pub umount_all-AllGone :
      (folder : String) (s t : State)
      → umount_all H folder s ≡ (ok tt, t)
      → (ms : List String) × (umount_all_list H folder "/proc/mounts" s ≡ ok ms) × AllGone H ms t
  unfolding umount_all
  umount_all-AllGone folder s t h =
      let (ms, u, listed, rest) =
        bind-eq-ok (query (umount_all_list H folder "/proc/mounts")) _ s t tt h in
      let (_, v, unmounted, checked) = then-eq-ok _ (for_each ms (check_gone H)) u t tt rest in
      let (same, gone) = check_all-eq-ok ms v t checked in (ms, cc, rw (← same) gone)

  verify-eq-ok :
      (source destination : String) (s t : State)
      → verify H source destination s ≡ (ok tt, t)
      → ismount H destination t ≡ ok true
  unfolding verify
  verify-eq-ok source destination s t h =
      let (mounted, u, asked, rest) = bind-eq-ok (query (ismount H destination)) _ s t tt h in
      elim (Bool-cases mounted) [ inl e ↦ ground arith | inr e ↦ ground arith ]

  bind_now-eq-ok :
      (source destination : String) (create : Bool) (s t : State)
      → bind_now H source destination create s ≡ (ok tt, t)
      → ismount H destination t ≡ ok true
  unfolding bind_now
  bind_now-eq-ok source destination create s t h =
      let (_, u, _, rest) = then-eq-ok _ _ s t tt h in
      let (_, v, _, last) = then-eq-ok _ _ u t tt rest in verify-eq-ok source destination v t last

  bind_cases :
      (mounted umount : Bool) (source destination : String) (create : Bool) (s t : State)
      → ismount H destination s ≡ ok mounted
      → (if mounted
            then (if umount
                then umount_all H destination >> bind_now H source destination create
                else pure tt)
            else bind_now H source destination create)
          s
        ≡ (ok tt, t)
      → ismount H destination t ≡ ok true
  bind_cases true true source destination create s t asked h =
      let (_, u, _, rest) = then-eq-ok _ _ s t tt h in
      bind_now-eq-ok source destination create u t rest
  bind_cases true false source destination create s t asked h = let e : s ≡ t = cc in rw (← e) asked
  bind_cases false umount source destination create s t asked h =
      bind_now-eq-ok source destination create s t h

  -- Where bind returns, for all its options, the destination is a mount point.
  pub bind-mounts :
      (source destination : String) (create umount : Bool) (s t : State)
      → bind H source destination create umount s ≡ (ok tt, t)
      → ismount H destination t ≡ ok true
  unfolding bind
  bind-mounts source destination create umount s t h =
      let (mounted, u, asked, rest) = bind-eq-ok (query (ismount H destination)) _ s t tt h in
      let e : s ≡ u = cc in
      bind_cases mounted umount source destination create s t (cc asked) (rw (← e) at rest)

  mount_now-eq-ok :
      (source destination : String) (create readonly : Bool) (kind : Option String)
      (options : List String) (s t : State)
      → mount_now H source destination create readonly kind options s ≡ (ok tt, t)
      → ismount H destination t ≡ ok true
  unfolding mount_now
  mount_now-eq-ok source destination create readonly kind options s t h =
      let (_, u, _, rest) = then-eq-ok _ _ s t tt h in
      let (_, v, _, last) = then-eq-ok _ _ u t tt rest in verify-eq-ok source destination v t last

  mount_cases :
      (mounted umount force : Bool) (destination : String) (now : M State NoneType) (s t : State)
      → ((u v : State) → now u ≡ (ok tt, v) → ismount H destination v ≡ ok true)
      → ismount H destination s ≡ ok mounted
      → (if mounted
            then (if umount
                then umount_all H destination >> now
                else if force
                then now
                else pure tt)
            else now)
          s
        ≡ (ok tt, t)
      → ismount H destination t ≡ ok true
  mount_cases true true force destination now s t good asked h =
      let (_, u, _, rest) = then-eq-ok _ _ s t tt h in good u t rest
  mount_cases true false true destination now s t good asked h = good s t h
  mount_cases true false false destination now s t good asked h =
      let e : s ≡ t = cc in rw (← e) asked
  mount_cases false umount force destination now s t good asked h = good s t h

  -- Where mount returns, for all its options, the destination is a mount point.
  pub mount-mounts :
      (source destination : String) (create umount readonly : Bool) (kind : Option String)
      (options : List String) (force : Bool) (s t : State)
      → mount H source destination create umount readonly kind options force s ≡ (ok tt, t)
      → ismount H destination t ≡ ok true
  unfolding mount
  mount-mounts source destination create umount readonly kind options force s t h =
      let (mounted, u, asked, rest) = bind-eq-ok (query (ismount H destination)) _ s t tt h in
      let e : s ≡ u = cc in
      mount_cases mounted umount force destination
        (mount_now H source destination create readonly kind options) s t
        (mount_now-eq-ok source destination create readonly kind options) (cc asked)
        (rw (← e) at rest)

  -- So is that of an overlay.
  pub mount_overlay-mounts :
      (lower : List String) (destination : String) (upper : Option (String × String))
      (create readonly : Bool) (s t : State)
      → mount_overlay H lower destination upper create readonly s ≡ (ok tt, t)
      → ismount H destination t ≡ ok true
  unfolding mount_overlay
  mount_overlay-mounts lower destination upper create readonly s t h =
      let (xino, u, _, rest) = bind-eq-ok _ _ s t tt h in
      let (_, v, _, last) = then-eq-ok _ _ u t tt rest in
      mount-mounts "overlay" destination create false readonly (some "overlay") _ true v t last
