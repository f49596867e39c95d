-- ===== src/File/WriteBytes.antt =====
-- WriteBytes of File.cpp as a whole, where it writes through the pages.
use andromeda_desktop_client.Common.{◌≡◌, false}
use andromeda_desktop_client.File.{Pages, append, Settings, get_write_mode}
use andromeda_desktop_client.File.Laws.{Laws}

module _ (P : Pages) (L : Laws P) where
  open P use {State, page_size, file_size, exists}

  abbrev pub Fresh : Settings → State → Type 0
  Fresh c s = get_write_mode c ≡ append → exists s ≡ false
