-- ===== src/Lib.antt =====
-- The gateway between BK7252N battery cameras and HTTP, bkcam-go/main.go: one Go program that finds
-- cameras by UDP, keeps a session with each, takes their video and audio, and serves both.
--
-- The parts and how they interact. The HTTP interface (App, Input, Config) keeps a list of camera
-- configurations and a runtime for each. A runtime (Runtime) owns at most one session (Session); it
-- runs two timers' loops on it, sends it commands, restarts it, and is called back with frames,
-- sound and answers. The session reads datagrams, which it decrypts (Cipher) and parses (Packet);
-- it acknowledges data and hands it on by channel: answers to commands, video packets, which are
-- put together to JPEG frames (Video), and sound, which is decoded (Audio).
--
-- Cipher.antt: keyTable (Cipher/Table), keyFromPSK, encrypt, decrypt, decryptInto.
-- Packet.antt: parsePacket and the datagrams of sendDRWPacket, sendDRWAck and SendCommand;
--   Packet/Wire has the byte orders of encoding/binary.
-- Video.antt: videoFrame, handleVideo, buildVideoFrame, indexDistance; Video/Slots the map of the
--   packets, Video/Jpeg trimCompleteJPEG, Video/Delivery, Video/Invariant, Video/Assembly,
--   Video/Waiting,
--   Video/Awaits and Video/AnyOrder the proofs.
-- Audio.antt: parseAudioFrames, mediaIndexAfter, the audio case of handleDRW; Audio/Adpcm
--   ADPCMDecoder, Audio/Wav wavHeader, Audio/Filter AudioProcessor.
-- Session.antt: PPPP with acceptsPeer, setRemote, handlePacket, handleDRW, the sending methods,
--   Close, one round of Run and one of discoveryLoop. Session/Peers, Session/Punches and
--   Session/Frames prove what a run over any datagrams does.
-- Config.antt: CameraConfig, its accessors, expectedAddress; Config/Existing the existing... helpers;
--   Config/Public is publicConfig, and Config/Shown what it means to send it back.
-- Input.antt: the helpers that read a request; Input/Strings what they use of the packages strings
--   and strconv; Input/Camera normalizeCamera.
-- Runtime.antt: CameraRuntime and its windows. Lifecycle has Start, Stop, restart, UpdateConfig,
--   SetProfileSize and healthLoop; Streams has nudgeStreams, requestStreams, requestAudioOnly,
--   sendGetParams, streamLoop and recoverVideoForClient; Events has the callbacks that Start sets
--   and videoOutputLoop; Commands has commandWithResponse and removeCommandWaiter; Health has
--   healthLocked; Clients has sendDropOld and the fan-out; Metrics has appendMetric and trimMetric.
-- App.antt: cameraIndexLocked, upsertRuntimeLocked, removeRuntimeLocked, setCameraProfileSize,
--   targetStreamSize and the cases of handleAPI that create, change and delete a camera.
--   App/Serve puts these requests in a row, App/Directory is the table of ids that they promise, and
--   App/Listing, App/Runtimes, App/Shows, App/Changes and App/Refine prove that they keep to it.
-- Device.antt: ApplyDeviceConfig, in the order of the code: Device/Actions is what it builds up,
--   Device/Fields the fields of the request; imagePresetControls. Device/Requests has RefreshDeviceConfig,
--   SetWifi, ScanWifi, RefreshParams, Reboot, streamCommandOK and the cases of handleAPI that use them.
--   Device/Provision has provisionCamera and defaultLanDiscovery, Device/Listed and Device/Provisioned
--   what they do to the list. Device/Analysis is analyzeLatestFrame.
--   Device/Ranges, Device/Allowed, Device/Rules, Device/Keeps, Device/Outcomes and Device/Reads have the proofs.
-- Viewing.antt: the loops of ServeVideo and ServeAudio and writeMJPEGFrame, with proofs in Viewing/Ending
--   and Viewing/Holding; Viewing/Joining is what comes before and after them, and Viewing/Snapshot is ServeSnapshot.
-- Pages.antt: htmlValue, tr, normalizeLang, mapBool, yamlQuote and what the pages use of fmt, html, net/url
--   and strconv. Pages/Controls, CameraForm, DeviceForm, Wizard, Metrics, Panel, Page and Exports have the render
--   functions, Style, Script and Actions the page's style sheet and script, Overview allStatuses, publicConfigs,
--   publicConfigsWithStatus and the page over the program's state. Pages/Marks, Safe, SafePanel and SafePage have the
--   proofs. App/Sorted is sortedRuntimes, with its proofs in App/Order; Runtime/Status is Status,
--   calcMetric and WaitForSession.
-- Router.antt: handleAPI; Router/Root handleRoot and handleCamera, Router/Body readJSONBody, requestLang and
--   baseURL, Router/Paths urlPathUnescape; Router/Program ties the routes to the handlers of App and Device.
--   Router/Changes, Router/Guarded, Router/Links and Router/Served have the proofs.
-- Files.antt: Config, defaultConfigPath, loadConfig, saveConfigLocked, with the proofs in Files/Atomic; Files/Start is main;
--   Files/Durable is the requests that save the list of cameras.
-- Examples: the theorems on concrete data. Prelude: what the modules share.
--
-- How the code is read. A byte is a number below 256 and a byte slice a list; a nil and an empty
-- slice are one where every caller tests the length. Unsigned fields keep their wrap-around; the
-- wrap of a Go int is left out where its values stay small. A map is an association list. A method
-- takes the state and, where it reads the clock, the time in nanoseconds, and returns the state
-- with the datagrams, callbacks and timers that it started, in order. A mutex makes a method one
-- step: what other goroutines do inside a method is not modelled. Strings are ASCII.
--
-- Loops. Those over a slice are structural recursion. The loop of parseAudioFrames runs on fuel, the
-- length of its input, which is enough as every round takes at least 33 bytes off it; the loop of
-- buildVideoFrame makes maxSlot + 1 rounds, as the source does.
--
-- Parameters. For code outside the repository: `parse_ip4` is net.ParseIP with To4, `marshal` the
-- JSON text of a command, `decode_config` the JPEG header's size, `save` whether the configuration
-- file could be written, `FloatOps` what a float64 does. Some modules take code of
-- another module as a parameter where they do not depend on what it computes: `filter` is AudioProcessor.Process on
-- one block (Audio/Filter), `for_output` and `output` are frameForOutput (Runtime/Overlay), `light` is what analyzeLatestFrame
-- finds (Device/Analysis); `exchange` is commandWithResponse on any state, which
-- Runtime/Commands models: a request for settings depends on what it returns only.
--
-- Of what the pages, routes and files use, `ui` is the table uiText, `RateOps` and `MeterOps` what they do with a
-- float64, `unmarshal` and `Json` are encoding/json, `Disk` is os and filepath with the laws `IsDisk` that
-- package os documents. `Api` and `Site` are what the routes ask of the program; Router/Program gives the former.
--
-- `Arith`, `Settings`, `LightOps` and `Pictures` are the float64 operations and the image packages of the filter, the
-- analysis and the overlay.
--
-- Not modelled: the HTTP transport (net/http decodes a request and writes the headers and the JSON text of an answer), the
-- text of the translations, the pixels of the overlay, the log.
pub mod Prelude
pub mod Cipher
pub mod Packet
pub mod Video
pub mod Audio
pub mod Session
pub mod Config
pub mod Input
pub mod Runtime
pub mod App
pub mod Device
pub mod Viewing
pub mod Pages
pub mod Router
pub mod Files
pub mod Examples
