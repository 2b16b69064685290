-- ===== src/Extension/Acts.antt =====
-- Histories of the extension while it is loaded.
use sm_rest.Prelude.{List, [], ◌∷◌, not, if_cases}
use sm_rest.Queue.{TransferEvent}
use sm_rest.Thread.{TransferThread, RoundAnswers, round}
use sm_rest.Extension.{RestExtension}
use sm_rest.Extension.Dispatch.{Reply, silent, handle_event, handle_events, on_game_frame}
use sm_rest.Extension.Plugins.{PluginCall, plugin_call}

-- What happens while the extension is loaded: frames of the game, single events as a frame takes
-- them, calls of plugins, and rounds of the transfer thread, in any order.
pub data Act : Type 0 where
  frames : List Reply → Act
  called : PluginCall → Act
  rounds : RoundAnswers → Act
  hears : Reply → TransferEvent → Act

unfoldable pub act : RestExtension → Act → RestExtension
act extension (frames replies) = on_game_frame replies extension
act extension (hears reply event) = handle_event reply extension event
act extension (called call) = plugin_call extension call
act extension (rounds answers) = record extension { thread = (round answers extension.thread).0 }

unfoldable pub act_all : RestExtension → List Act → RestExtension
unfolding act
act_all extension [] = extension
act_all extension (first ∷ acts) = act_all (act extension first) acts

-- What the handling of every event keeps, a frame's events keep.
pub by_events {κ} :
    (P : RestExtension → Type κ)
    (by_event : (reply : Reply) (extension : RestExtension) (event : TransferEvent)
      → P extension
      → P (handle_event reply extension event))
    (replies : List Reply) (extension : RestExtension) (events : List TransferEvent)
    → P extension
    → P (handle_events replies extension events)
unfolding handle_events
by_events P by_event replies extension [] p = p
by_events P by_event [] extension (event ∷ events) p =
    by_events P by_event [] (handle_event silent extension event) events
      (by_event silent extension event p)
by_events P by_event (reply ∷ replies) extension (event ∷ events) p =
    by_events P by_event replies (handle_event reply extension event) events
      (by_event reply extension event p)

-- What the thread, every call of a plugin and the handling of every event keep, every history keeps.
module _ {κ} (P : RestExtension → Type κ)
    (by_thread : (extension : RestExtension) (thread : TransferThread)
      → P extension
      → P (record extension { thread = thread }))
    (by_call : (extension : RestExtension) (call : PluginCall)
      → P extension
      → P (plugin_call extension call))
    (by_event : (reply : Reply) (extension : RestExtension) (event : TransferEvent)
      → P extension
      → P (handle_event reply extension event)) where
  by_frame :
      (replies : List Reply) (extension : RestExtension)
      → P extension
      → P (on_game_frame replies extension)
  unfolding on_game_frame
  by_frame replies extension p =
      if_cases P (not extension.thread.shared.queue.has_events) _ _ (λ quiet. p)
        (λ waiting. by_events P by_event replies _ _ (by_thread extension _ p))

  pub by_acts :
      (acts : List Act) (extension : RestExtension) → P extension → P (act_all extension acts)
  unfolding act_all act
  by_acts [] extension p = p
  by_acts (frames replies ∷ acts) extension p =
      by_acts acts (act extension (frames replies)) (by_frame replies extension p)
  by_acts (called call ∷ acts) extension p =
      by_acts acts (act extension (called call)) (by_call extension call p)
  by_acts (hears reply event ∷ acts) extension p =
      by_acts acts (act extension (hears reply event)) (by_event reply extension event p)
  by_acts (rounds answers ∷ acts) extension p =
      by_acts acts (act extension (rounds answers)) (by_thread extension _ p)
