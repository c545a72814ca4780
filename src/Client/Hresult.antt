-- ===== src/Client/Hresult.antt =====
-- The values of HRESULT that the plugin makes itself; `failure` is one that a system call gave.
use wslg.Common.{◌≡◌, refl, ℕ, Bool, true, false}

pub data Hresult : Type 0 where
  s_ok e_fail e_outofmemory e_invalidarg arithmetic_overflow : Hresult
  failure : ℕ → Hresult

-- FAILED(hr)
abbrev pub is_failed : Hresult → Bool
is_failed s_ok = false
is_failed e_fail = true
is_failed e_outofmemory = true
is_failed e_invalidarg = true
is_failed arithmetic_overflow = true
is_failed (failure n) = true

pub succeeded : (hr : Hresult) → is_failed hr ≡ false → hr ≡ s_ok
succeeded s_ok h = refl
succeeded e_fail h = cc
succeeded e_outofmemory h = cc
succeeded e_invalidarg h = cc
succeeded arithmetic_overflow h = cc
succeeded (failure n) h = cc
