-- ===== src/Lib.antt =====
-- rauc-hawkbit-updater polls a hawkBit server for software updates, downloads or streams the bundle of a
-- deployment, and has RAUC install it.
--
-- The parts of the program, and the files that model them:
--   - src/config-file.c: Config (the getters and load_config_file, over a parsed key file).
--   - src/json-helper.c: JsonHelper (over json-glib's queries).
--   - src/log.c: Log (where a message goes; the levels that are registered).
--   - src/rauc-hawkbit-updater.c: Main (main, up to the call that polls), Program (its end, so
--     the whole program) and Callbacks (the three callbacks that join the client to the installer).
--   - src/rauc-installer.c: Installer (rauc_install and the thread of an installation).
--   - src/sd-helper.c: SdHelper (systemd's event loop as a source of the main loop).
--   - src/hawkbit-client.c, from the top: Http (headers and URLs), Payload (curl_write_cb), Rest
--     (rest_request and its retries), Status (json_build_status), Feedback (feedback, identify, the
--     clean-up and the callbacks of an installation), Artifact and Deployment (process_deployment and
--     start_streaming_installation), Binary (get_binary and get_file_checksum), Download
--     (download_thread), Cancel (process_cancel), Poll (hawkbit_pull_cb), Service
--     (hawkbit_init and hawkbit_start_service_sync). System has the threads of one deployment beside
--     each other, Deployments those of many deployments, one after another.
--
-- The state. `World` (World.antt) has what the threads share: active_action with its mutex and state,
-- thread_download and thread_install, a trace of what was done to the outside, and an environment. `Exec`
-- (Exec.antt) is a function of it that returns, returns with the C function's `error` set, or stops
-- the process: main() makes critical messages fatal, so a failed g_return_val_if_fail is a crash, as
-- are a NULL pointer that is read and a mutex that is locked twice by its holder. `GError` has the
-- errors as values.
--
-- Each `goto` is a call of the function that stands for its label, and a long C function is cut into
-- functions at its early returns: process_deployment is process_deployment, fetch_deployment,
-- with_root, consider_download, consider_update, adopt_deployment and deploy. The download thread is a
-- machine (`Pc`, `download_step`) that goes from one place where it does not hold the mutex to the
-- next, so that other threads can come between two steps. In process_cancel, what other threads do
-- during each g_cond_wait is an argument; if that list ends, the wait does not.
--
-- The threads together are a step relation (System): the main thread in process_cancel, the download
-- thread of one deployment, and the callbacks of its installation, in any order, with g_cond_wait
-- returning at any time. Deployments has them over many deployments, one after another, with the
-- polls that start them (`Client`, `Next`, `Comes`); its invariant (Deployments/Fits) is a table of
-- the states by the places of the threads, and Deployments/Diagram has the edges between the states.
-- Download/Table has the moves of the download thread, from which the facts about its steps are read
-- off. The signals of RAUC, and what the main loop dispatches, are lists that are given; where such a
-- list ends, the loop waits for good.
--
-- libcurl, json-glib, GLib's key files and texts, files, clock, RAUC's D-Bus proxy and libsystemd are
-- parameters (`Json`, `KeyFile`, `Glib`, `Bus`, `Systemd`, and the fields of `Services`); so is the
-- callback that starts an installation, which Callbacks then fills (`client`). Hypotheses about them state
-- what is documented: a piece of a response has size * nmemb bytes, a checksum does not depend on the
-- pieces, case folding keeps lower-case words, the states in which systemd's calls leave its loop.
--
-- Fuel and bounds. get_file_checksum has one round more than the file has bytes, and each round but the
-- last reads at least one. The retries of a request count down from 10, as in the source. The download
-- thread is run for a number of steps. Sizes of the response buffer wrap at 2 ^ 64.
--
-- Proofs about the shared state go by the rules of World/Quiet (an action that leaves it alone) and
-- World/Runs (what an action makes of it), those about the mutex alone by World/Moves, those about
-- what is sent by World/Sends, and those about assertions by World/Asserts; `search` applies the rules
-- along the text of a function. The tests, with concrete libraries, are in Samples.
--
-- Not modelled: the freeing of memory, debug messages, the choice between RAUC's session and system
-- bus, the mutex of an installation's context (its thread is the only one that uses it while it runs),
-- the threads beside each other where bundles are streamed or hawkBit cancels another action than the
-- one in progress (what each call does then is proved alone), what GLib dispatches of RAUC's signals in
-- the same iteration after the one that quits the loop, the unlock of a mutex that is free (which the
-- source never does: it leaves the model's mutex free), an overflow of C's int in the polling time, and
-- the build without systemd.
pub mod Base
pub mod GError
pub mod Config
pub mod Exec
pub mod JsonHelper
pub mod Log
pub mod World
pub mod Services
pub mod Payload
pub mod Http
pub mod Rest
pub mod Status
pub mod Feedback
pub mod Artifact
pub mod Deployment
pub mod Binary
pub mod Download
pub mod Cancel
pub mod Poll
pub mod System
pub mod Deployments
pub mod Installer
pub mod Callbacks
pub mod SdHelper
pub mod Service
pub mod Main
pub mod Program
pub mod Samples
