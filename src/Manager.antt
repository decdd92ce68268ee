-- ===== src/Manager.antt =====
-- src/camera_manager.cpp: the set of cameras. It is the list of the cameras, in the order of their
-- ids; what libcamera answers to each of them is a function of the position.
pub mod Fleet
pub mod Discover
pub mod Uniform
pub mod Phase
mod Tests
