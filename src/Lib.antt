-- ===== src/Lib.antt =====
-- dtorch, a distributed tensor library: the rules that say how a tensor is spread over a mesh of
-- devices and what an operator does to them, and the session that runs operators and frees tensors.
--
-- A tensor has a shape and, for each axis of a mesh of devices, a placement: replicated, sharded
-- along a dimension of the shape, or a partial sum. The C++ interface checks a shape, a mesh and
-- its placements against each other when a tensor is made, converted or given to an operator, and
-- computes the shape each device holds; an operator looks its inputs' placements up, axis by axis,
-- in a table it builds, to get those of its outputs; a conversion goes from one sequence of
-- placements to another one axis at a time.
--
-- In a session the thread of the interface makes operators and counts the tensors that hold each
-- operand. It sends both through a queue to the thread of the executor, which collects them in
-- batches; the runner makes the blobs and kernels of a batch and erases the operands that ended. The
-- devices of the cluster are divided between the runners of its nodes.
--
-- Where the parts are:
--   Shape          Shape of dtorch/api/cpp/shape.{h,cc}: Prod, Count, At, Set, CanBroadcastWith,
--                  BroadcastOutputShape, ExpandBefore, KeepSelectedDim, RemoveSelectedDim.
--   Stride         Stride of dtorch/api/cpp/stride.{h,cc}: the constructor from a shape,
--                  ComputeIndex and ComputeCoordinate at size_t.
--   Placement      Placement of dtorch/api/cpp/distributed_spec.{h,cc}, its ToHashKey and
--                  GetShardSizeForAllRank.
--   PlacementSeq   PlacementSeq of the same files, with GetConvertOrder, and the assignment in the
--                  loop of ConvertPlacementsOneByOne of
--                  dtorch/api/cpp/functional/implement/convert_op_impl.cc.
--   DeviceMesh     SimpleArray of dtorch/api/cpp/simple_array.{h,cc}, DeviceMesh, Device and
--                  DistributedSpec::GetRankId.
--   DistributedSpec  GetShardInfo, CheckShapeValid, CheckDeviceIdValid, CheckValid,
--                  IndexInSelectedDims and ComputeLocalShape.
--   Signature      PlacementSignature and its Builder, dtorch/core/operators/placement_signature.
--   Operators      get_valid_dim (Operator::GetValidDim of dtorch/core/operators/operator.cc), the
--                  rows of a signature, and a child for each of the operators Permute, Transpose,
--                  Squeeze, Unsqueeze, Chunk, Reshape, Flatten, Concat, Expand, Reduce,
--                  Linear (its shape only), Binary (BroadcastBinaryOp) and Matmul of
--                  dtorch/core/operators/standard: X_shape is its InferOutputMetaInfo, X_signature
--                  its GetPlacementSignature. Inference has CheckInput and
--                  InferOutputDistributedSpecFromPlacementSignature of operator.cc.
--   Redistribute   ConvertOpImpl of dtorch/api/cpp/functional/implement/convert_op_impl.{h,cc}:
--                  conversion is its constructor, run_func its RunFunc. The sequences of placements
--                  are handles: `shared` says that the destination's and the source's hold one vector.
--   TensorStore    MemoryTensorStore of
--                  dtorch/core/communication/tensor_store/memory_tensor_store.cc: the barrier as a
--                  relation between the states of a group of threads, in which a wait is a step
--                  that can be taken once its condition holds; SrcSet, DestGet, DestFinishGet and
--                  SrcWaitUntilGetFinished as functions of the store.
--   ThreadGroup    ThreadGroupInfo of
--                  dtorch/core/communication/thread_group/thread_group_manager.cc:
--                  thread_group_info is its constructor, whose loops end early where the device is
--                  found.
--   Graph          GraphConstructor of dtorch/core/graph/graph_constructor.{h,cc}, with the messages
--                  that it sends: ref_count_increase is ApiTensorRefCountIncrease, and so on.
--   Executor       EagerGraphExecutor, LogicalGraph and GraphTraversalSequence of the same
--                  directory: execute_round is a round of AsyncMain after its messages.
--   Runner         NaiveRunner of dtorch/core/runner/naive_runner.{h,cc}.
--   Session        the two threads and the queue between them as a relation between states; a call
--                  of the interface is one step, and so is a message that is processed or a round.
--   Devices        RunnerSupportedDevices of dtorch/core/runner/runner_supported_devices.{h,cc},
--                  KernelStreamKey, and OperatorAssignInfo with its inference in operator.cc.
--   Cluster        ClusterInfo of dtorch/core/distributed/cluster_info.{h,cc} and
--                  CheckSupportOrThrow of the executor.
--   Tests          runs of these definitions, and the theorems at concrete inputs.
--   Base           what they share: numbers, lists, and Outcome for code that may fail.
--
-- How the code is read:
--   - A function that may throw std::invalid_argument or stop at an assertion returns an Outcome.
--     DAlwaysAssert aborts in every build and DDebugAssert in a debug build, which is the one that
--     is modelled; a read out of range and a division by zero abort as well.
--   - int64_t is an integer without bounds, as an overflow of a signed number is undefined; a
--     conversion to size_t, and what is computed in size_t or uint64_t, wraps at 2 ^ 64.
--   - A container that is changed in place is passed and returned. An unordered_map or set is a
--     list in the order of insertion, where only membership and lookup matter.
--   - Loops are by recursion over the list that they run over, or over the number of rounds left,
--     which is the bound of the C++ loop, so that none needs fuel beyond it.
--
-- Not modelled: printing and serialization, and all that calls torch, CUDA, NCCL, ZeroMQ or the
-- operating system. Remote runners, the end of a session, the process groups and the tensor store in
-- shared memory are left out, and so are the operators that are not named above.
pub mod Base
pub mod Cluster
pub mod DeviceMesh
pub mod Devices
pub mod DistributedSpec
pub mod Executor
pub mod Graph
pub mod Operators
pub mod Placement
pub mod PlacementSeq
pub mod Redistribute
pub mod Runner
pub mod Session
pub mod Shape
pub mod Signature
pub mod Stride
pub mod TensorStore
pub mod Tests
pub mod ThreadGroup
