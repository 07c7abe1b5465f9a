-- ===== src/Cloudvisor.antt =====
-- The cloud resource manager (resource_managers/cloudvisor): the choice of an instance type in
-- ec2_manager.py, the calls of AWS in ec2_wrapper.py, the cleaner of cleaner.py, and the handlers of
-- webapp/rest.py. AWS is known by its answers.
pub mod Types
pub mod Tags
pub mod Ec2
pub mod Groups
pub mod Manager
pub mod Fulfill
pub mod AwsTests
pub mod Cleaner
pub mod Webapp
pub mod Tests
