-- ===== src/Client/Plugin/OtherFiles.antt =====
-- Files at paths that are not the plugin's own, where a file system with contents is known.
use wslg.Common.{ℕ, ◌≡◌, ◌∙◌, refl, List, Option}
use wslg.Client.Windows.{Windows, ShellLink, TaskBarInfo}
use wslg.Client.Callback.{State}
use wslg.Client.Callback.Confined.{AllNames, IsDeletable, made_link, made_icon}
use wslg.Client.Callback.Confined.Frame.{Frame}
use wslg.Client.Plugin.Connections.{Session, Session-Holds}

-- What the calls do to the contents of files, `none` for no file. `Same` says which paths name one
-- file, as texts that differ in case do.
pub record FileLaws (win : Windows) (Same : List ℕ → List ℕ → Type 0)
    (content : List ℕ → win.World → Option (List ℕ)) : Type 0 where
  pub directory_made :
      (q path : List ℕ) (w : win.World) → content q (win.create_directory path w).0 ≡ content q w
  pub directory_removed :
      (q path : List ℕ) (w : win.World) → content q (win.remove_directory path w).0 ≡ content q w
  pub link_saved :
      (q : List ℕ) (link : ShellLink) (w : win.World)
      → ¬ Same q link.path_link
      → content q (win.save_shell_link link w).0 ≡ content q w
  pub file_made :
      (q path : List ℕ) (w : win.World)
      → ¬ Same q path
      → content q (win.create_file path w).0 ≡ content q w
  pub file_written :
      (q path bytes : List ℕ) (w : win.World)
      → ¬ Same q path
      → content q (win.write_file path bytes w).0 ≡ content q w
  pub file_deleted :
      (q path : List ℕ) (w : win.World)
      → ¬ Same q path
      → content q (win.delete_file path w).0 ≡ content q w
  pub sent :
      (q bytes : List ℕ) (w : win.World) → content q (win.channel_write bytes w).0 ≡ content q w
  pub shown :
      (q : List ℕ) (hwnd : ℕ) (info : TaskBarInfo) (w : win.World)
      → content q (win.update_task_bar_info hwnd info w) ≡ content q w

module _ (win : Windows) (Same : List ℕ → List ℕ → Type 0)
    (content : List ℕ → win.World → Option (List ℕ)) (laws : FileLaws win Same content)
    (IsName : List ℕ → Type 0)
    (names : (path : List ℕ) (w : win.World) → AllNames win IsName (win.list_directory path w))
    (q : List ℕ) (other : (path : List ℕ) → IsDeletable win IsName path → ¬ Same q path) where
  -- The file has the content `c`.
  content_frame : (c : Option (List ℕ)) → Frame win
  content_frame c = record {
    IsName = IsName;
    names = names;
    Holds = λ w. content q w ≡ c;
    creates = λ path w own h. laws.directory_made q path w ∙ h;
    saves = λ link w own h. laws.link_saved q link w (other _ (made_link own)) ∙ h;
    makes_icon = λ path w own h. laws.file_made q path w (other path (made_icon own)) ∙ h;
    writes_icon =
        λ path bytes w own h. laws.file_written q path bytes w (other path (made_icon own)) ∙ h;
    deletes = λ path w own h. laws.file_deleted q path w (other path own) ∙ h;
    removes = λ dir w own empty h. laws.directory_removed q dir w ∙ h;
    sends = λ bytes w h. laws.sent q bytes w ∙ h;
    shows = λ hwnd info w h. laws.shown q hwnd info w ∙ h;
  }

  -- A file that is none of the plugin's own has the same content, or is not there, at every moment
  -- of the life of the plugin as at the start, whichever connections come and go and whatever data
  -- arrives at them. The plugin's own files are: the links in the menu directory of a provider
  -- without "..", quote or space, or in a group's directory there; the .ico files in an icon
  -- directory, or in a group's directory there, where an icon directory is the folder for temporary
  -- files itself, WSLDVCPlugin\ in it, or that with such a provider name; what listings show below
  -- a menu directory; and the icon of a link that they show there. Groups and names that the server
  -- chose have no "..". Other processes leave the file as it is, and every call of Windows changes
  -- no file but the one that it names.
  pub Session-content :
      (Others : win.World → win.World → Type 0) (w₀ : win.World)
      → ((v v' : win.World) → Others v v' → content q v' ≡ content q v)
      → (cs : List State) (w : win.World) → Session win Others w₀ cs w
      → content q w ≡ content q w₀
  unfolding content_frame
  Session-content Others w₀ others_keep cs w s =
      Session-Holds win (content_frame (content q w₀)) Others w₀
        (λ v v' acts h. others_keep v v' acts ∙ h) refl cs w s
