-- ===== src/Daemon/FontMonitor/Folder/XFontPath.antt =====
-- What the operations of a folder do to the font path of the X server.
use wslg.Common.{
  ℕ, ◌≡◌, ◌≢◌, refl, sym, ◌∙◌, ◌⊎◌, inl, inr, List, Bool, true, false, Option, none, some,
  Bool-cases, arith, subst,
}
use wslg.Common.{if◌then◌else◌}
use wslg.Daemon.FontMonitor.System.{System, join}
use wslg.Daemon.FontMonitor.Folder.{
  FontFolder, fonts_dir, add_font_path, remove_font_path, rehash, xor, execute_shell_command,
  modify_x11_font_path, new_font_folder, delete_font_folder, add_if_ready, watch_on, unwatch,
  close_if_open,
}

-- `OnPath w p` says that p is on the X server's font path, and `Failed w p` that some "xset -fp p"
-- failed before, in fork or with its exit status.
module _ (s : System) (OnPath Failed : s.World → List ℕ → Type 0) where
  -- Nothing is added to the font path, and what failed did.
  abbrev pub Quiet : s.World → s.World → Type 0
  Quiet w w' = (q : List ℕ) → (OnPath w' q → OnPath w q) × (Failed w q → Failed w' q)

  -- What is documented of xset: only "+fp p" adds anything, and that is p, if it succeeds; after a
  -- "-fp p" that succeeds, p is not on the path. The other calls to the system add nothing.
  pub record XLaws : Type 0 where
    pub added :
        (p q : List ℕ) (w : s.World)
        → OnPath (execute_shell_command s (add_font_path p) w).0 q
        → OnPath w q ⊎ ((p ≡ q) × ((execute_shell_command s (add_font_path p) w).1 ≡ true))
    pub added_failed :
        (p q : List ℕ) (w : s.World)
        → Failed w q
        → Failed (execute_shell_command s (add_font_path p) w).0 q
    pub removed :
        (p : List ℕ) (w : s.World) → Quiet w (execute_shell_command s (remove_font_path p) w).0
    pub removed_self :
        (p : List ℕ) (w : s.World)
        → (execute_shell_command s (remove_font_path p) w).1 ≡ true
        → ¬ OnPath (execute_shell_command s (remove_font_path p) w).0 p
    pub removal_failed :
        (p : List ℕ) (w : s.World)
        → (execute_shell_command s (remove_font_path p) w).1 ≡ false
        → Failed (execute_shell_command s (remove_font_path p) w).0 p
    pub rehashed : (w : s.World) → Quiet w (execute_shell_command s rehash w).0
    pub slept : (n : ℕ) (w : s.World) → Quiet w (s.sleep n w)
    pub duplicated : (fd : ℕ) (w : s.World) → Quiet w (s.dup fd w).0
    pub watched : (fd : ℕ) (p : List ℕ) (w : s.World) → Quiet w (s.add_watch fd p w).0
    pub unwatched : (fd : Option ℕ) (wd : ℕ) (w : s.World) → Quiet w (s.rm_watch fd wd w)
    pub closed : (fd : ℕ) (w : s.World) → Quiet w (s.close fd w)
    pub initialised : (w : s.World) → Quiet w (s.inotify_init w).0
    pub created : (w : s.World) → Quiet w (s.pthread_create w).0
    pub stopped : (t : ℕ) (w : s.World) → Quiet w (s.stop_thread t w)

-- The same laws of one predicate, where a removal always takes the path off it.
pub record PathLaws (s : System) (OnPath : s.World → List ℕ → Type 0) : Type 0 where
  pub added :
      (p q : List ℕ) (w : s.World)
      → OnPath (execute_shell_command s (add_font_path p) w).0 q
      → OnPath w q ⊎ ((p ≡ q) × ((execute_shell_command s (add_font_path p) w).1 ≡ true))
  pub removed :
      (p q : List ℕ) (w : s.World)
      → OnPath (execute_shell_command s (remove_font_path p) w).0 q
      → OnPath w q × (p ≢ q)
  pub rehashed :
      (q : List ℕ) (w : s.World) → OnPath (execute_shell_command s rehash w).0 q → OnPath w q
  pub slept : (n : ℕ) (q : List ℕ) (w : s.World) → OnPath (s.sleep n w) q → OnPath w q
  pub duplicated : (fd : ℕ) (q : List ℕ) (w : s.World) → OnPath (s.dup fd w).0 q → OnPath w q
  pub watched : (fd : ℕ) (p q : List ℕ) (w : s.World) → OnPath (s.add_watch fd p w).0 q → OnPath w q
  pub unwatched :
      (fd : Option ℕ) (wd : ℕ) (q : List ℕ) (w : s.World)
      → OnPath (s.rm_watch fd wd w) q
      → OnPath w q
  pub closed : (fd : ℕ) (q : List ℕ) (w : s.World) → OnPath (s.close fd w) q → OnPath w q
  pub initialised : (q : List ℕ) (w : s.World) → OnPath (s.inotify_init w).0 q → OnPath w q
  pub created : (q : List ℕ) (w : s.World) → OnPath (s.pthread_create w).0 q → OnPath w q
  pub stopped : (t : ℕ) (q : List ℕ) (w : s.World) → OnPath (s.stop_thread t w) q → OnPath w q

-- What is on the path and did not fail to come off it.
module _ (s : System) (OnPath Failed : s.World → List ℕ → Type 0)
    (laws : XLaws s OnPath Failed) where
  abbrev pub Left : s.World → List ℕ → Type 0
  Left w q = OnPath w q × ¬ Failed w q

  pub Quiet-Left :
      (w w' : s.World) → Quiet s OnPath Failed w w' → (q : List ℕ) → Left w' q → Left w q
  Quiet-Left w w' quiet q (on, not_failed) =
      ((quiet q).0 on, (λ failed. not_failed ((quiet q).1 failed)))

  Left-removed :
      (p q : List ℕ) (w : s.World)
      → Left (execute_shell_command s (remove_font_path p) w).0 q
      → Left w q × (p ≢ q)
  Left-removed p q w left = (
    Quiet-Left w _ (laws.removed p w) q left,
    λ same.
        let w' = (execute_shell_command s (remove_font_path p) w).0 in
        elim (Bool-cases (execute_shell_command s (remove_font_path p) w).1) [
          | inl done ↦ laws.removed_self p w done (subst (OnPath w') (sym same) left.0)
          | inr failed ↦ left.1 (subst (Failed w') same (laws.removal_failed p w failed))
        ],
  )

  pub XLaws→PathLaws : PathLaws s Left
  XLaws→PathLaws = record {
    added = λ p q w left. elim (laws.added p q w left.0) [
      | inl before ↦ inl (before, (λ failed. left.1 (laws.added_failed p q w failed)))
      | inr own ↦ inr own
    ];
    removed = Left-removed;
    rehashed = λ q w. Quiet-Left w _ (laws.rehashed w) q;
    slept = λ n q w. Quiet-Left w _ (laws.slept n w) q;
    duplicated = λ fd q w. Quiet-Left w _ (laws.duplicated fd w) q;
    watched = λ fd p q w. Quiet-Left w _ (laws.watched fd p w) q;
    unwatched = λ fd wd q w. Quiet-Left w _ (laws.unwatched fd wd w) q;
    closed = λ fd q w. Quiet-Left w _ (laws.closed fd w) q;
    initialised = λ q w. Quiet-Left w _ (laws.initialised w) q;
    created = λ q w. Quiet-Left w _ (laws.created w) q;
    stopped = λ t q w. Quiet-Left w _ (laws.stopped t w) q;
  }

-- A folder keeps its path.
module _ (s : System) where
  pub modify-path :
      (is_add : Bool) (f : FontFolder) (w : s.World)
      → (modify_x11_font_path s is_add f w).0.path ≡ f.path
  unfolding modify_x11_font_path
  modify-path is_add f w = ground arith

  pub modify-wd :
      (is_add : Bool) (f : FontFolder) (w : s.World)
      → (modify_x11_font_path s is_add f w).0.wd ≡ f.wd
  unfolding modify_x11_font_path
  modify-wd is_add f w = ground arith

  ready-path : (f : FontFolder) (w : s.World) → (add_if_ready s f w).0.path ≡ f.path
  unfolding add_if_ready
  ready-path f w = ground (arith, modify-path true f w)

  watch-path :
      (copy : Option ℕ) (f : FontFolder) (w : s.World) → (watch_on s copy f w).0.path ≡ f.path
  watch-path none f w = refl
  watch-path (some d) f w = refl

  pub new-path : (fd : ℕ) (p : List ℕ) (w : s.World) → (new_font_folder s fd p w).0.path ≡ p
  unfolding new_font_folder
  new-path fd p w = watch-path _ _ _ ∙ ready-path _ w

module _ (s : System) (OnPath : s.World → List ℕ → Type 0) (laws : PathLaws s OnPath) where
  open s use {World}

  -- The folder accounts for the path q.
  abbrev pub Accounts : FontFolder → List ℕ → Type 0
  Accounts f q = (f.path ≡ q) × (f.is_path_added ≡ true)

  module _ (f : FontFolder) (w : World) (q : List ℕ) where
    w₁ : World
    w₁ = s.sleep 2 w

    -- After the shell command: whether it was run, whether it succeeded, what the folder says then.
    outcome : Bool → Bool → Bool → World → FontFolder × World
    outcome run done is_add w₂ =
        if run
        then (if done
            then (record f { is_path_added = is_add }, (execute_shell_command s rehash w₂).0)
            else (f, w₂))
        else (f, s.sleep 2 w)

    adds :
        (run done : Bool)
        → (execute_shell_command s (add_font_path f.path) (s.sleep 2 w)).1 ≡ done
        → (let w₂ = (execute_shell_command s (add_font_path f.path) (s.sleep 2 w)).0 in
            OnPath (outcome run done true w₂).1 q
            → OnPath w q ⊎ Accounts (outcome run done true w₂).0 q)
    unfolding outcome
    adds true true e on = elim (laws.added f.path q _ (laws.rehashed q _ on)) [
      | inl before ↦ inl (laws.slept 2 q w before)
      | inr (same, _) ↦ inr (same, refl)
    ]
    adds true false e on = elim (laws.added f.path q _ on) [
      | inl before ↦ inl (laws.slept 2 q w before)
      | inr (same, done) ↦ absurd (let no : false ≡ true = sym e ∙ done in cc)
    ]
    adds false done e on = inl (laws.slept 2 q w on)

    pub modify-add :
        OnPath (modify_x11_font_path s true f w).1 q
        → OnPath w q ⊎ Accounts (modify_x11_font_path s true f w).0 q
    unfolding modify_x11_font_path outcome
    modify-add on = adds _ _ refl on

    removes :
        (run done : Bool)
        → xor f.is_path_added false ≡ run
        → (let w₂ = (execute_shell_command s (remove_font_path f.path) (s.sleep 2 w)).0 in
            OnPath (outcome run done false w₂).1 q
            → OnPath w q × (f.is_path_added ≡ true → f.path ≢ q))
    unfolding outcome
    removes true true e on =
        let (before, other) = laws.removed f.path q _ (laws.rehashed q _ on) in
        (laws.slept 2 q w before, λ _. other)
    removes true false e on =
        let (before, other) = laws.removed f.path q _ on in (laws.slept 2 q w before, λ _. other)
    removes false done e on = (laws.slept 2 q w on, λ h. absurd (ground arith))

    pub modify-remove :
        OnPath (modify_x11_font_path s false f w).1 q
        → OnPath w q × (f.is_path_added ≡ true → f.path ≢ q)
    unfolding modify_x11_font_path outcome
    modify-remove on = removes _ _ refl on

    -- The path stays, and a folder that is added already stays so.
    pub Accounts-modify : Accounts f q → Accounts (modify_x11_font_path s true f w).0 q
    unfolding modify_x11_font_path
    Accounts-modify (path, added) = ground arith

  module _ (q : List ℕ) where
    unwatch-on : (fd wd : Option ℕ) (w : World) → OnPath (unwatch s fd wd w) q → OnPath w q
    unwatch-on fd none w on = on
    unwatch-on fd (some wd) w on = laws.unwatched fd wd q w on

    close-on : (fd : Option ℕ) (w : World) → OnPath (close_if_open s fd w) q → OnPath w q
    close-on none w on = on
    close-on (some fd) w on = laws.closed fd q w on

    pub delete-remove :
        (f : FontFolder) (w : World)
        → OnPath (delete_font_folder s f w) q
        → OnPath w q × (f.is_path_added ≡ true → f.path ≢ q)
    unfolding delete_font_folder
    delete-remove f w on = modify-remove f w q (unwatch-on _ _ _ (close-on _ _ on))

    ready-add :
        (f : FontFolder) (w : World)
        → OnPath (add_if_ready s f w).1 q
        → OnPath w q ⊎ Accounts (add_if_ready s f w).0 q
    unfolding add_if_ready
    ready-add f w on = elim (Bool-cases (s.readable (join f.path fonts_dir) w)) [
      | inl ready ↦ rw (add_if_ready, ready) (modify-add f w q (rw (add_if_ready, ready) at on))
      | inr other ↦ inl (rw (add_if_ready, other) at on)
    ]

    watch-on :
        (copy : Option ℕ) (f : FontFolder) (w : World)
        → OnPath (watch_on s copy f w).1 q
        → OnPath w q × (Accounts f q → Accounts (watch_on s copy f w).0 q)
    watch-on none f w on = (on, λ a. a)
    watch-on (some d) f w on = (laws.watched d f.path q w on, λ a. a)

    -- What a new folder adds it accounts for.
    pub new-add :
        (fd : ℕ) (p : List ℕ) (w : World)
        → OnPath (new_font_folder s fd p w).1 q
        → OnPath w q ⊎ Accounts (new_font_folder s fd p w).0 q
    unfolding new_font_folder
    new-add fd p w on =
        let f : FontFolder = record { fd = none; wd = none; path = p; is_path_added = false } in
        let (on', keeps) = watch-on _ _ _ on in
        elim (ready-add f w (laws.duplicated fd q _ on')) [
          | inl before ↦ inl before
          | inr accounts ↦ inr (keeps accounts)
        ]
