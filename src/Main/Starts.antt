-- ===== src/Main/Starts.antt =====
-- src/rauc-hawkbit-updater.c: what the service is started with.
use rauc_hawkbit_updater.Base.{
  String, Bool, true, false, ◌≡◌, refl, Option, none, some, if◌then◌else◌,
}
use rauc_hawkbit_updater.GError.{GError, Result, ok, err}
use rauc_hawkbit_updater.Config.{Config, KeyFile, Glib, load_config_file}
use rauc_hawkbit_updater.Config.Loaded.{IsValid, load_config_file-IsValid}
use rauc_hawkbit_updater.Log.{setup_logging}
use rauc_hawkbit_updater.Main.{
  Options, Start, exited, started, log_level_for, start_with, start_file, main,
}

-- Each exit status with its cause, in the order in which they are looked for. Of a start: the options
-- were read and ask for no version; the file that they name exists, and the configuration is what was
-- loaded from it, and usable; the other options went where they belong.
pub data Justified (g : Glib) (exists : String → Bool) (load : String → Result KeyFile)
    : Result Options → Start → Type 0 where
  options_refused : (e : GError) → Justified g exists load (err e) (exited 1)
  version_shown :
      (options : Options) → options.version ≡ true → Justified g exists load (ok options) (exited 0)
  no_file_named :
      (options : Options)
      → options.version ≡ false
      → options.config_file ≡ none
      → Justified g exists load (ok options) (exited 2)
  file_missing :
      (options : Options) (name : String)
      → options.version ≡ false
      → options.config_file ≡ some name
      → exists name ≡ false
      → Justified g exists load (ok options) (exited 3)
  file_refused :
      (options : Options) (name : String) (e : GError)
      → options.version ≡ false
      → options.config_file ≡ some name
      → exists name ≡ true
      → load_config_file g load name ≡ err e
      → Justified g exists load (ok options) (exited 4)
  service_started :
      (options : Options) (name : String) (c : Config)
      → options.version ≡ false
      → options.config_file ≡ some name
      → exists name ≡ true
      → load_config_file g load name ≡ ok c
      → IsValid c
      → Justified g exists load (ok options) (
          started c
            (setup_logging (log_level_for options c) options.output_systemd)
            options.run_once)

module _ (g : Glib) (exists : String → Bool) (load : String → Result KeyFile) (options : Options)
    (v : options.version ≡ false) where
  start_with-Justified :
      (name : String) (r : Result Config)
      → options.config_file ≡ some name
      → exists name ≡ true
      → load_config_file g load name ≡ r
      → Justified g exists load (ok options) (start_with options r)
  unfolding start_with
  start_with-Justified name (err e) f x l = file_refused options name e v f x l
  start_with-Justified name (ok c) f x l =
      service_started options name c v f x l (load_config_file-IsValid g load name c l)

  if-Justified :
      (name : String) (b : Bool)
      → options.config_file ≡ some name
      → exists name ≡ b
      → Justified g exists load
          (ok options)
          (if b then start_with options (load_config_file g load name) else exited 3)
  if-Justified name true f x = start_with-Justified name _ f x refl
  if-Justified name false f x = file_missing options name v f x

  start_file-Justified :
      (file : Option String)
      → options.config_file ≡ file
      → Justified g exists load (ok options) (start_file g exists load options file)
  unfolding start_file
  start_file-Justified none f = no_file_named options v f
  start_file-Justified (some name) f = if-Justified name (exists name) f refl

version-Justified :
    (g : Glib) (exists : String → Bool) (load : String → Result KeyFile) (options : Options)
    (b : Bool)
    → options.version ≡ b
    → Justified g exists load
        (ok options)
        (if b then exited 0 else start_file g exists load options options.config_file)
version-Justified g exists load options true v = version_shown options v
version-Justified g exists load options false v =
    start_file-Justified g exists load options v options.config_file refl

-- The program exits with status 1 exactly where the options could not be read, else 0 where the
-- version was asked for, else 2 where no configuration file is named, else 3 where it does not
-- exist, else 4 where it could not be loaded. Otherwise the service is started, with the usable
-- configuration that was loaded from that file, at its log level unless --debug is given, and with
-- the other options.
pub main-Justified :
    (g : Glib) (exists : String → Bool) (load : String → Result KeyFile) (parsed : Result Options)
    → Justified g exists load parsed (main g exists load parsed)
unfolding main
main-Justified g exists load (err e) = options_refused e
main-Justified g exists load (ok options) =
    version-Justified g exists load options options.version refl
