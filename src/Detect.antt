-- ===== src/Detect.antt =====
-- The detection of checkerboards and markers: extractYFromYUV420 of src/frame_processor_helpers.cpp,
-- the four detect functions of src/frame_processor.cpp, and the detectors they call
-- (src/checkerboard_detector.cpp and src/aruco_detector.cpp).
pub mod Luma
pub mod Rows
pub mod Plane
pub mod Views
pub mod Slots
pub mod Pipelines
pub mod Quadrants
pub mod Edge
pub mod Profile
pub mod Refine
pub mod Shift
mod Tests
