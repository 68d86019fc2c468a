-- ===== src/Main/Watch/Files.antt =====
-- cmd/server/main.go: `watchConfig` from the path of the configuration on. What fsnotify answers to
-- `NewWatcher` and to `Add` is an argument, an error or none.
use smolllm_server.Base.{
  ℕ, Bool, true, Option, none, some, List, [], ◌∷◌, eqb, Text, text_eq, split, reverse,
}
use smolllm_server.Main.Watch.{last_part, Event, reloads}

-- the file of `filepath.Split`: what stands behind the last slash
unfoldable pub file_part : Text → Text
unfolding last_part
file_part path = last_part (split b'/' path)

-- what the loop may receive: a file event, an error of the watcher, which is logged, or the end, by the
-- context that is done or by a channel that is closed
pub data Received : Type 0 where
  changed : Event → Received
  watch_failed : Text → Received
  done closed : Received

-- the file events up to the return of the loop
unfoldable pub until_return : List Received → List Event
until_return [] = []
until_return (changed e ∷ rs) = e ∷ until_return rs
until_return (watch_failed t ∷ rs) = until_return rs
until_return (done ∷ rs) = []
until_return (closed ∷ rs) = []

-- `watchConfig`: the times of the reloads; a timer that is armed when the loop returns still fires
unfoldable pub watch_config : Text → Option Text → Option Text → List Received → List ℕ
watch_config path (some e) added rs = []
watch_config path none (some e) rs = []
watch_config path none none rs = reloads (file_part path) (until_return rs)

abbrev opens_with_slash : Text → Bool
opens_with_slash [] = true
opens_with_slash (c ∷ s) = eqb c b'/'

-- a path that is empty or ends with a slash names no file
abbrev pub names_no_file : Text → Bool
names_no_file path = opens_with_slash (reverse path)
