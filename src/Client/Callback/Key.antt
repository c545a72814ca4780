-- ===== src/Client/Callback/Key.antt =====
-- The key of an application.
use wslg.Common.{ℕ, ◌+◌, ◌<◌, ◌≡◌, refl, List, [], ◌++◌, true, false, arith, length, length-append}
use wslg.Client.Memory.{text}
use wslg.Client.Pdu.{WString}
use wslg.Client.Path.{max_path, backslash}
use wslg.Client.Path.Fits.{wcscat_s_fits}
use wslg.Client.Windows.{Windows}
use wslg.Client.Callback.{State}
use wslg.Client.Callback.Steps.{next, ◌>>=◌, or_fail}
use wslg.Client.Callback.Update.{make_key, is_given}

pub make_key_lem :
    (win : Windows) (group id : WString) (g i : List ℕ) (st : State) (w : win.World)
    → 0 < group.len
    → text group.chars ≡ g
    → text id.chars ≡ i
    → length g + 1 + length i < 260
    → make_key win group id st w ≡ next ((g ++ backslash) ++ i) st w
unfolding make_key ◌>>=◌ or_fail
make_key_lem win group id g i st w given group_text id_text short =
    let on : is_given group ≡ true = ground arith in
    let whole : length (g ++ backslash) ≡ length g + 1 = omega (arith, length-append g backslash) in
    let put_group = wcscat_s_fits max_path [] g (omega arith) in
    let put_backslash = wcscat_s_fits max_path g backslash (omega arith) in
    let put_id = wcscat_s_fits max_path (g ++ backslash) i (omega arith) in
    rw (make_key, on, group_text, id_text, put_group)
      (rw (◌>>=◌, or_fail, put_backslash) (rw (or_fail, put_id) refl))

pub make_key-id :
    (win : Windows) (group id : WString) (i : List ℕ) (st : State) (w : win.World)
    → is_given group ≡ false
    → text id.chars ≡ i
    → length i < 260
    → make_key win group id st w ≡ next i st w
unfolding make_key or_fail
make_key-id win group id i st w no_group id_text short =
    rw (make_key, no_group, id_text, wcscat_s_fits max_path [] i (omega arith)) refl
