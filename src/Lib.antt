-- ===== src/Lib.antt =====
-- The wargame simulation: a C++ and Qt program in which an authoritative server runs a battle of red
-- and blue units, and clients show and command it. This library models the parts that carry its
-- rules and proves what they promise.
--
-- Strike, for src/core/GuidedStrikeWorkflow.h and .cpp: the guided strike, in which the command post,
-- a reconnaissance unit, an attacker and a ground guide act in turn. Strike.State has the stages and
-- the record of the workflow (setStage, reject), Strike.Posted what onMessagePosted does with each
-- message that the bus posts, Strike.Incoming validateIncomingMessage, Strike.Orders the five
-- operations. A call of the bus is a Delivery: whether send accepted, and the messages that it posts
-- before it returns. Strike.Invariant, Held, OrdersInvariant, Progress, History and Retry have the
-- lemmas.
--
-- Bus, for src/core/MessageBus.h and .cpp: Bus.Message the message types and their names,
-- Bus.Registry the registered units, Bus.Graph canCommunicate (Scan and Search have the lemmas),
-- Bus.Window the ids of the automatic messages that were seen and their saved state. The search takes
-- one more round of fuel than there are units, which is enough since each round takes a unit that was
-- visited once from the queue. Bus.Delivery has send, dispatch, maybeAutoAck, deliver and the timers of
-- the ACKs over the whole bus, Delivery.Restore restorePendingAckState, Delivery.Runs a sequence of
-- any of these calls. An ACK asks for no ACK, so that send calls itself once at most: maybe_auto_ack
-- dispatches it with a dispatch behind which maybeAutoAck returns at once. The handlers of the units
-- are the parameter react, which may do anything with the bus, and theorems state what they ask of it;
-- a signal is an entry of the log. Delivery.Stable has what the single updates keep and so every call
-- keeps, Pending, Once and Settling apply it.
--
-- Client, for src/network/ClientStateStore.h and .cpp: the client's baseline. Its checks of the
-- protocol, the projection of a snapshot and the delta algorithm are the interface Protocol.
--
-- Vmf, for src/vmf: Vmf.BitStream the classes BitWriter and BitReader of VmfCodec.cpp,
-- Vmf.RuntimeState the persisted state of VmfRuntimeState.h and .cpp. Vmf.Codec is for the codec of
-- VmfCodec.h and .cpp: Codec.Tree the trees of a message and of a dictionary with findInstances and
-- readNodeValue, Encode encodeNodes and Codec::encode, Decode decodeContainer, decodeRoot and
-- Codec::decode, each but for the validation of the message and the paths in the diagnostics. Both
-- trees are mutual data types and the functions recurse on the dictionary's; the instances of a
-- repeated container are counted down from their greatest number. What Qt does with numerals is the
-- record Numerals. Codec.Conforms says which messages the decoder understands, with their values and
-- the canonical nodes; Writing, Replay and Rebuild follow the encoder and the decoder along it, the
-- decoder over any Reader; Recorded, Length and Serving lead to RoundTrip, Preserved to Tiling. The
-- function decodeNodes is called by no other and left out.
--
-- Server, for server/game/StrictVmfTask.h and .cpp: the strict tasks. The eviction of finished tasks
-- takes an id from the order in each round, so that the length of the order is enough fuel. Server.AiPlan is
-- server/game/AiPlan.h and .cpp, the plan that a planner sends; toInt and toInteger are a parameter,
-- and the error texts are left out.
--
-- Combat, for src/core/CombatResolver.h and .cpp: one shot, with its 64-bit hash in full.
--
-- Units, for src/core/UnitFsm.h and .cpp: the state machine that drives a unit. An update is
-- the tree of what it does between its calls of goTo, which the updates of the units make.
--
-- Prelude has the shared lists, texts and JSON values, and the record Qt of what the program takes
-- from C++ and Qt: a double is an element of an unknown type, of which no law is assumed. A quint64 is a
-- number with its wrap-around written out, a hash table an association list, a fallible call an
-- Option, and a signal an event that the state records. The text of a diagnostic is kept where the
-- state records it and left out elsewhere. Tests has the theorems at concrete inputs.
--
-- Not modelled: the validation of VMF messages, their rules and the dictionary files, the simulation
-- engine and the units, the room server, the planners, the network and DDS transports, the
-- map, and the user interface.
pub mod Prelude
pub mod Tests
pub mod Vmf
pub mod Bus
pub mod Client
pub mod Server
pub mod Strike
pub mod Units
pub mod Combat
