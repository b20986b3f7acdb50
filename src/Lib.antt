-- ===== src/Lib.antt =====
-- BBSim, a simulator of a broadband OLT with its PON ports, ONUs, UNIs and services: a model of its
-- devices and of the OMCI messages that they answer.
--
-- The program. An OLT has PON ports, a PON port has ONUs, an ONU has UNI and POTS ports, a UNI has
-- services. Each of them keeps a finite state machine (github.com/looplab/fsm) whose callbacks do the
-- work: they put messages on the channel of the ONU or of a service, fire the machines of what is below
-- them, and store and give back the resources of the PON port. The controller drives an ONU by flows and
-- by OMCI messages; handleOmciRequest answers these and changes the ONU, its ports and the resources. The
-- OLT takes the controller's requests, checks flows against the GEM ports and alloc ids of other ONUs, and
-- passes them on to the ONU's channel; its own channel drives the PON ports, which take their ONUs up and down.
--
-- The files.
--   Prelude, Prelude/*: shared names, tests, lists, Go maps as association lists.
--   Go: what Go calls can do besides returning (block, panic), channels, nil pointers; predicates on
--     results.
--   Fsm: a machine's table, and the library's engine as a parameter with its documented behaviour.
--   Messages: internal/bbsim/types/messageTypes.go, serial numbers.
--   Oper, Service/Machines/*, Onu/Machine: the tables of the machines, each also read as a function.
--   Service: internal/bbsim/devices/services.go (Initialize, Disable, HandleAuth, HandleDhcp, the
--     callbacks and the timers); Service/Wellformed, Service/Starts: theorems.
--   Uni: internal/bbsim/devices/uni_port.go and pots_port.go; Uni/Create: NewUniPort and
--     NewService; Uni/Gems, Uni/Switching, Uni/Tags, Uni/Fresh: theorems.
--   Pon: the resources of internal/bbsim/devices/pon.go; Pon/Ownership: what each operation does to them.
--   Eapol: internal/bbsim/responders/eapol/eapol.go as a service calls it; Eapol/Order: a theorem.
--   Dhcp: transaction ids and addresses of internal/bbsim/responders/dhcp; Dhcp/Exchange: the messages of a
--     service (dhcp.go); Dhcp/Server: the server (dhcp_server.go); Dhcp/Collisions, Dhcp/Exchange/Order,
--     Dhcp/Server/RoundTrip: theorems.
--   Igmp: the bytes and the checksum of an IGMP message (internal/bbsim/responders/igmp/igmp.go); Igmp/Checksum:
--     theorems.
--   Alarms: internal/bbsim/alarmsim/alarmsim.go, internal/common/alarms.go.
--   Omci/*: internal/common/omci (Packet: requests; Responses: the Create functions; EntityId; Sections).
--   Onu/State: the ONU and the world of an operation (the ONU, the PON port's resources, the OLT's
--     channel, the goroutines started, the indications sent); Onu/Events: the callbacks of CreateONU;
--     Onu/Power: HandleShutdownONU, HandlePowerOnONU, Reboot, SetAlarm; Onu/Flows: handleFlowAdd,
--     handleFlowRemove; Onu/Counters: transaction ids, alarm sequence numbers; Onu/Omci and
--     Onu/Omci/{Base,Requests,Image}: handleOmciRequest, all of internal/bbsim/devices/onu.go. The other
--     files of Onu are theorems about these (Onu/Reboot, Onu/Release, Onu/Invariant, Onu/Enabling and so on).
--   Onu/Messages: ProcessOnuMessages; Onu/Messages/Sending: the indications, the UNI alarms and the flows that it
--     sends (also internal/bbsim/devices/onu.go); Onu/Messages/{Ends,Stops,Alarms}: theorems.
--   Olt/Machines: the tables of the OLT and of a PON port; Olt/State: OltDevice, PonPort, NniPort and the lookups;
--     Olt/Ids: the maps of GEM ports and alloc ids; Olt/Flows: FlowAdd, FlowRemove, validateFlow; Olt/Requests: the
--     other requests of the controller; Olt/Ports: the callbacks of a PON port; Olt/Lifecycle: the messages of the
--     OLT's channel, InitOlt, clearAllResources, RestartOLT, all of internal/bbsim/devices/olt.go, pon.go and nni.go.
--     The other files of Olt are theorems (Olt/Ids/Refines, Olt/Exclusive, Olt/PonCycle and so on).
--   Scenarios/*: the theorems at concrete inputs.
--
-- How code is modelled. A record is a struct, a method is a function from the record to the record, a
-- call that can block or panic gives a `Result`. The state of an operation is passed in and comes back.
-- Goroutines that an operation starts are recorded in `spawned`, not run; a timer's function is an
-- operation of its own. A channel is the list of what it holds; the receiver of an unbuffered channel is
-- taken to receive as long as its loop runs. Counters wrap around at the width of their Go type. The
-- loops of the code run over lists and need no fuel; only process_messages has a number of turns, after
-- which a context is done (Onu/Messages/Ends says how many are enough on a closed channel), and fold_carries in
-- Igmp has two rounds (fold-enough in Igmp/Checksum says that more change nothing).
--
-- Parameters. The engine of looplab/fsm, the serialization and the alarm bit maps of omci-lib-go (which may
-- fail), whether a send to the stream and a call of the client succeed, the checksum
-- of crc32a, strconv.Atoi, crypto/md5, the parsing of gopacket and whether it serializes a packet, and what slicing beyond the length of a slice gives.
--
-- Not modelled: logging, gRPC, HTTP and Kafka I/O, the contents of Get and MibUploadNext responses, the
-- generation of the MIB database, the loops that receive from channels other than those of the OLT and of an
-- ONU, the goroutines that Enable of the
-- OLT starts, statistics, the packets around IGMP messages, packet tags, configuration, the
-- device management server, BBR and the command line client.
pub mod Prelude
pub mod Go
pub mod Fsm
pub mod Messages
pub mod Oper
pub mod Service
pub mod Uni
pub mod Pon
pub mod Alarms
pub mod Omci
pub mod Onu
pub mod Dhcp
pub mod Eapol
pub mod Igmp
pub mod Olt
pub mod Scenarios
