-- ===== src/Rootfs/Making.antt =====
-- A directory that `vfs_mkdir` makes in the root directory of tmpfs, and `vfs_lookup` of it.
use nycu_osdi.Prelude.{
  ℕ, ◌<◌, ◌≡◌, ◌≢◌, ◌∙◌, refl, sym, ap, true, false, Option, none, some, List, [], ◌∷◌, ◌++◌, arith,
  has, ◌==◌, length, length-append, update, append_nil, append_assoc,
}
use nycu_osdi.Prelude.Int.{ℤ, pos, eq_ℤ}
use nycu_osdi.Strings.{strcmp}
use nycu_osdi.Strings.Compare.{IsString}
use nycu_osdi.Tmpfs.{Allocs, directory, tmpfs_lookup, enoent_vfs}
use nycu_osdi.Tmpfs.Create.{Given, create-Created}
use nycu_osdi.Tmpfs.Names.{IsDirectory, Fresh}
use nycu_osdi.Vfs.{Vfs, at, step_component, arrived, enter, look_in, vfs_lookup}
use nycu_osdi.Vfs.Paths.{parts_from, along, vfs_lookup_lem}
use nycu_osdi.Vfs.Files.{make_in, vfs_mkdir}
use nycu_osdi.Vfs.Files.Making.{with_memory, vfs_mkdir_lem}
use nycu_osdi.Rootfs.{World, made, tmpfs_ops}

-- A part of a path that is a name of its own.
pub record IsName (name : List ℕ) : Type 0 where
  pub string : IsString name
  pub some_name : 0 < length name
  pub short : length name < 64
  pub no_slash : has 47 name ≡ false
  pub not_dot : eq_ℤ (strcmp name (46 ∷ [])) (pos 0) ≡ false
  pub not_up : eq_ℤ (strcmp name (46 ∷ 46 ∷ [])) (pos 0) ≡ false

parts_from-name :
    (w name : List ℕ)
    → has 47 name ≡ false
    → 0 < length (w ++ name)
    → parts_from w name ≡ (w ++ name) ∷ []
parts_from-name [] [] h some_name = absurd (omega (arith, some_name))
parts_from-name (c ∷ w) [] h some_name = let e = sym (append_nil (c ∷ w)) in ap (λ l. l ∷ []) e
parts_from-name w (c ∷ name) h some_name =
    let other : (c == 47) ≡ false = ground arith in
    let same : (w ++ (c ∷ [])) ++ name ≡ w ++ (c ∷ name) = append_assoc w (c ∷ []) name in
    rw other (
      parts_from-name (w ++ (c ∷ [])) name (ground arith)
        (omega (arith, length-append (w ++ (c ∷ [])) name, length-append w (c ∷ [])))
      ∙ ap (λ l. l ∷ []) same)

step_to :
    (name : List ℕ) (current v : ℕ) (view : Vfs) (l : List ℕ → ℤ × Option ℕ)
    → IsName name
    → view.mount current ≡ none
    → view.mount v ≡ none
    → view.lookup current ≡ some l
    → l name ≡ (pos 0, some v)
    → step_component name current view ≡ at v
unfolding step_component
step_to name current v view l i m mv look found =
    rw (i.not_dot, i.not_up)
      (ap (λ o. look_in (view.lookup (enter current o view)) name view) m
        ∙ (ap (λ o. look_in o name view) look
            ∙ (ap (λ r. arrived r view) found ∙ ap (λ o. at (enter v o view)) mv)))

-- The path "/name".
abbrev pub root_path : List ℕ → List ℕ
root_path name = 47 ∷ name

module _ (w : World) {d v n : ℕ} (name : List ℕ) (a : Allocs) (buffer : Option (ℕ → ℕ))
    (i : IsName name) (root : IsDirectory w.fs w.root d)
    (room : length (w.fs.nodes d).children < 16)
    (unknown : tmpfs_lookup (some w.root) name w.fs ≡ (enoent_vfs, none)) (g : Given a v n)
    (fresh : Fresh w.fs w.root d v n (w.fs.nodes d).children)
    (unmounted : (w.fs.vnodes w.root).mount ≡ none) where
  -- With room and memory for it, `vfs_mkdir` of "/name" makes a new directory in the root of tmpfs,
  -- and `vfs_lookup` of "/name" then leads to its vnode; other names in the root lead where they led.
  pub vfs_lookup-vfs_mkdir :
      (t : World) × (vfs_mkdir (tmpfs_ops a buffer) with_memory (some (root_path name)) w
        ≡ some (pos 0, t))
      × (vfs_lookup true (root_path name) ((tmpfs_ops a buffer).view t) ≡ some (at v))
      × ((t.fs.vnodes v).internal ≡ some n)
      × ((t.fs.nodes n).type ≡ directory)
      × ((other : List ℕ)
          → IsString other
          → other ≢ name
          → tmpfs_lookup (some t.root) other t.fs ≡ tmpfs_lookup (some w.root) other w.fs)
  unfolding make_in
  vfs_lookup-vfs_mkdir =
      let (gs, done, c) =
        create-Created {fs = w.fs} name directory a i.string i.some_name i.short root room unknown g
          fresh in
      let t : World = record w { fs = gs; f_ops = update w.f_ops v 0 } in
      let str : IsString (47 ∷ name) = (ground arith, i.string) in
      let not_empty : (length name == 0) ≡ false = ground (arith, i.some_name) in
      let apart : v ≢ w.root = fresh.vnode in
      let still : (gs.vnodes w.root).mount ≡ none =
        ap (λ x. x.mount) (c.kept w.root apart) ∙ unmounted in
      (
        t,
        vfs_mkdir_lem (tmpfs_ops a buffer) [] name w str i.no_slash
            ∙ (rw not_empty (ap (λ r. some ((made r w).code, (made r w).state)) done)),
        vfs_lookup_lem (47 ∷ name) ((tmpfs_ops a buffer).view t) str
            ∙ (ap (λ l. some (along l (at w.root) ((tmpfs_ops a buffer).view t)))
                  (parts_from-name [] name i.no_slash i.some_name)
                ∙ ap some (
                    step_to name w.root v ((tmpfs_ops a buffer).view t)
                      (λ x. tmpfs_lookup (some w.root) x gs) i still (c.mount ∙ unmounted) refl
                      c.found)),
        c.type_of.0,
        c.type_of.1,
        c.others,
      )
