-- ===== src/HttpUpload/Posting.antt =====
-- An upload at `ClientThread` of http_upload.c.
use hust_network_programming.Base.{◌^◌, ◌<◌, ◌≡◌, ◌≢◌, List, [], none, length}
use hust_network_programming.CText.{Bytes, None, Avoids}
use hust_network_programming.CText.Scan.{is_nul}
use hust_network_programming.CText.Search.{strstr}
use hust_network_programming.HttpUpload.Multipart.{boundary_end}
use hust_network_programming.HttpUpload.Upload.{form}

-- A form that is read as it is meant.
pub record IsForm (boundary filename kind content tail : Bytes) : Type 0 where
  pub some_boundary : boundary ≢ []
  pub no_return : Avoids b'\r' boundary
  pub no_feed : Avoids b'\n' boundary
  pub short : length boundary < 252
  pub quoted : Avoids b'"' filename
  pub one_line : Avoids b'\r' filename
  pub kind_line : Avoids b'\r' kind
  pub content_ends : strstr content (boundary_end boundary) ≡ none
  pub no_nul : None is_nul (form boundary filename kind content tail)
  pub size : length (form boundary filename kind content tail) < 2 ^ 31
