-- ===== src/Lib.antt =====
-- Verification library of cherupi-v4l2, a camera server for the Raspberry Pi: cameras deliver
-- frames to a frame processor, which saves them or detects markers in them, and to streamers, which
-- send them to websocket clients in chunks. A commander controls the server; an observer only
-- watches.
--
-- Base holds shared names, lists over the native numbers, the signed integers and a result type.
-- Types is src/types.hpp: the modes, roles, states and frames.
-- Command is src/command_parser.cpp: the names of the commands (Command, Names), the role of a
--   connection (Path), the role gate (Command), and the requests (Request, Config) over an interface of
--   the JSON library (Json).
-- Processor is src/frame_processor.cpp. The state is one record; one function stands for each step
--   that a thread takes under a lock: saveFrame (Save), reserveBacklog and releaseBacklog (Backlog),
--   armTrigger and handleTriggerFrame (Trigger), writerThreadFunc and flushBufferedFrames (Writer),
--   detectionWorkerFunc and processDetection (Detection), createOutputDirectory (OutputDir), configure,
--   start and stop (Lifecycle). Session runs any list of such steps. The other children hold proofs.
-- Stream is src/stream_manager.cpp: the packed structures (Wire), the division of a frame into chunks
--   (Chunks), the detection block and the messages (Block, Header), and sendChunkedFrame with its
--   waits (Send), run against an environment that says what each look at the shared state finds;
--   Delivery and Finishing hold the proofs. Session is the life of a session and its thread.
--   streamingLoop stands in Visit, one turn of its inner loop for one camera with its cursors and
--   the shape of the frame, and in Loop, the rounds with their guards; the changes that the client
--   makes to its subscriptions meanwhile are arguments of a turn. Fairness, RoundRobin and Reach
--   are about the order of the cameras, Freshness about the frame that goes out, Subscriptions and Cursors
--   about the cursors, and HeaderOnly about frames without their data.
-- Priority is src/stream_priority.hpp with the part of the stream manager that feeds it.
-- Rate is src/rate_controller.cpp, over an interface of double.
-- Camera is src/camera.cpp: the record of one camera with configure and unconfigure (Setup), start,
--   stop, onRequestComplete and getFrameForStreaming (Capture), the settings and their generation
--   counters (Settings), and the stall watchdog (Watchdog). Life and Publication hold proofs.
-- Manager is src/camera_manager.cpp: discoverCameras (Discover) and the operations on all cameras
--   (Fleet). Uniform and Phase say what they do to the states of the cameras.
-- Server is src/websocket_server.cpp: its state and messages (State), the handlers of the commands
--   (Cameras, Streams, Controls), the parsing, the role gate, the connections, the drain handler and
--   a tick of the watchdog (Loop), and all of these as events in any order, beside the requests that
--   libcamera completes and the steps of the processor's threads (Events). Phase says how the state
--   of the system, the cameras and the watchdog belong together; Transitions, Quiet and Callbacks
--   show what each handler does to it, and Induction carries a property along any events. Sessions,
--   Starting, Streaming, Survival and Endurance are about std::terminate, which `none` stands for.
-- Detect is the four detect functions of src/frame_processor.cpp (Pipelines) with what they are made
--   of: the luma plane (Luma), the views of it and the calls of src/checkerboard_detector.cpp and
--   ArucoDetector::detect (Views), and the jobs on the four quadrants, done by threads in any order
--   (Slots). Edge, Profile and Refine are the rest of src/aruco_detector.cpp, the repair of a marker's
--   corners from its edges. Rows and Plane, Quadrants, and Shift hold proofs.
-- Converter is tools/yuv420_convert.cpp: the numbers and names in the paths (Number, Stem), the
--   decoding of a frame (Decode), the quadrants and the conversion of a file (Quadrants), and the
--   batch with its workers (Batch), which a schedule runs step by step. Names, Packing, Rotation,
--   Workers and Progress hold proofs.
-- Capacity is src/capacity.cpp, Focus is src/focus_region.cpp, Subsample is src/frame_subsample.cpp,
--   with Pixels and Planes for its proofs, and Sensor is src/sensor_mode.cpp.
--
-- The processor takes frames from the cameras and gives the streamers its detected frames
-- (get_detected_frame_for_streaming); its file names, modes and configuration come from Command,
-- its budget from Capacity, and the observer's streamer asks Priority before each chunk. The server
-- holds the manager's cameras, the processor and a session for each of the two clients, and hands a
-- camera's frame to the processor where the frame callback is set. The result of a trigger goes back
-- to the commander's connection that armed it. A streamer takes its frames from
-- the camera's slot, or in a detector mode from the processor's, which the detect functions fill. The
-- converter shares nothing with the server but the names of the files that the processor writes.
--
-- Fuel: the wait of the observer for the commander runs on fuel, and Finishing shows that a bound
-- on the tick at which the deadline passes is enough; the worker's drain runs on the number of
-- pending cameras, and the digits of a number on the number itself. The jobs on four quadrants run
-- on four batches, which are enough as each takes one at least. The streaming loop runs on the
-- list of what its rounds meet, its inner loop on the number of cameras, and a batch of
-- conversions on its schedule. The other waits have the source's own bounds, 50 and 400.
--
-- Parameters: the JSON library with what its dump() accepts, what libcamera answers to each call
-- (SetupAnswers, StartAnswers, Completion), whether a float is finite or negative, the file system
-- and the local time, the order in which the writer threads end their last tasks (Writer.Writers),
-- the comparison of a quotient of type double in Capacity, the calls of OpenCV (Views.Vision,
-- Decode.OpenCv with Rotation.IsDocumented, and the four detector runs where Processor uses them),
-- the arithmetic of float and double there (Edge.Arithmetic, Views.Floats, Visit.Pacing), double
-- in the rate controller and that controller's state in Stream/Send, and the bit pattern of a
-- float. An atomic compare-exchange loop is one step, and so is a handler: what another thread
-- does while it runs comes before or after it. A frame that is moved is modelled as its value. A
-- size_t counts bytes and does not wrap.
--
-- Not modelled: logging, the texts of refusals and replies, the sink, the end of the server (stop and
-- the destructors), the limits that libcamera reports, the copy of a frame's planes, the construction
-- of the detectors, which only sets parameters of OpenCV, sendFrameForTest and the log of the streamer's
-- statistics, the disk probe, and of tools/yuv420_convert.cpp the parsing of the options with negative
-- sizes, the usage text and the progress output.
pub mod Base
pub mod Types
pub mod Command
pub mod Converter
pub mod Capacity
pub mod Processor
pub mod Detect
pub mod Stream
pub mod Focus
pub mod Subsample
pub mod Sensor
pub mod Priority
pub mod Rate
pub mod Camera
pub mod Manager
pub mod Server
mod Tests
