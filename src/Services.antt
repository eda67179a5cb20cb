-- ===== src/Services.antt =====
-- What the client is given: libcurl, the system's files and clock, its configuration, and the
-- callback that starts an installation.
use rauc_hawkbit_updater.Base.{ℤ, ℕ, String, Bool, Option, List}
use rauc_hawkbit_updater.GError.{Result}
use rauc_hawkbit_updater.Config.{Config}
use rauc_hawkbit_updater.JsonHelper.{Json}
use rauc_hawkbit_updater.Exec.{Exec}
use rauc_hawkbit_updater.World.{World, Request, Transfer, UserData}

-- One call of a CURLOPT_WRITEFUNCTION.
pub record Chunk : Type 0 where
  pub content : List ℕ
  pub size : ℕ
  pub nmemb : ℕ

-- What a transfer gives: the CURLcode, CURLINFO_RESPONSE_CODE, and the calls of the write function.
pub record Response : Type 0 where
  pub code : ℕ
  pub http_code : ℕ
  pub chunks : List Chunk

-- A file that is open for reading: its bytes, and where reads begin to fail.
pub record File : Type 0 where
  pub content : List ℕ
  pub fails_from : Option ℕ

pub record Received : Type 0 where
  pub code : ℕ
  pub http_code : ℕ
  pub speed : ℕ

-- libcurl: curl_easy_init, curl_slist_append (FALSE is NULL), curl_easy_perform into memory and into
-- a file, curl_easy_strerror.
pub record Curl (E : Type 0) : Type 0 where
  pub easy_init : E → Bool × E
  pub slist_append : List String → String → E → Bool × E
  pub perform : Request → E → Response × E
  pub download : Transfer → E → Received × E
  pub strerror : ℕ → String

-- GChecksum of one type.
pub record Checksum (C : Type 0) : Type 0 where
  pub start : C
  pub update : C → List ℕ → C
  pub hex : C → String

-- The fields of struct tm that the program reads, of C's type int.
pub record Tm : Type 0 where
  pub tm_sec : ℤ
  pub tm_min : ℤ
  pub tm_hour : ℤ

-- Files, clock and system: `stat_size` is `none` where g_stat fails, `open_for_download` (the path
-- and whether to append) and `statvfs` (f_bsize and f_bavail) give the text of errno where they fail,
-- and `remove` is FALSE where g_remove fails. `uninitialised` is what a local variable holds before it is
-- written, and `strptime` writes by the format "%T". `render` reads a buffer as text, `format_speed` prints
-- with `%.2f`.
pub record Host (E : Type 0) : Type 0 where
  pub stat_size : String → E → Option ℕ × E
  pub open_for_download : String → Bool → E → Option String × E
  pub read_back : String → E → File × E
  pub is_regular : String → E → Bool × E
  pub remove : String → E → Bool × E
  pub dirname : String → String
  pub statvfs : String → E → Result (ℕ × ℕ) × E
  pub utc_time : E → String × E
  pub uninitialised : E → Tm × E
  pub strptime : String → Tm → Tm
  pub render : List ℕ → String
  pub format_speed : ℕ → String

pub record Services (Node C E : Type 0) : Type 0 where
  pub json : Json Node
  pub load_from_data : List ℕ → Result Node
  pub curl : Curl E
  pub checksum : Checksum C
  pub host : Host E
  pub config : Config
  pub run_once : Bool
  pub software_ready_cb : UserData → Exec (World E) Bool
